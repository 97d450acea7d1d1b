-- ===== src/Act/HandlerLaws.antt =====
-- What src/act.c leaves behind after a change that failed or was cancelled, or whose head src/displ.c has
-- freed.
use way_displays.Prelude.{
  ℕ, suc, ◌==◌, ==_iff, leb, ◌≡◌, refl, sym, ◌∙◌, ap, if◌then◌else◌, ◌⊎◌, inl, inr, true, not,
  Option, none, some, List, [], ◌∷◌, In, select, arith, Bool-cases,
}
use mathlib.Core.Bool.{false≢true}
use way_displays.Enums.{CfgElement, LogThreshold}
use way_displays.Platform.{Platform}
use way_displays.Mode.{Mode}
use way_displays.Head.{Head}
use way_displays.Head.FindMode.{Message}
use way_displays.Displ.{Displ, head_at, displ_delta_destroy, departs, displ_finished_head}
use way_displays.Displ.Heads.{head_at-update_head, apply_to}
use way_displays.World.{World, running, fault}
use way_displays.Act.Handlers.{
  mode_failed_head, failure_of, with_head, destroy_delta, change_head, tell, act_handle_failure,
  act_handle_cancelled, act_handle_success, success_of, max_cancellation_retries,
}

-- A cancelled change is retried while fewer than six have been cancelled since the last success.
pub cancelled_lem :
    {Real : Type 0} (w : World Real)
    → let (v, retry) = act_handle_cancelled w in
      (v.cancellation_retries ≡ suc w.cancellation_retries)
      × (retry ≡ leb v.cancellation_retries max_cancellation_retries)
      × (v.displ ≡ w.displ)
      × (v.requests ≡ w.requests)
      × (v.cfg ≡ w.cfg)
unfolding act_handle_cancelled
cancelled_lem w = ground arith

==_self : (n : ℕ) → (n == n) ≡ true
==_self n = (==_iff n n).1 refl

module _ (pf : Platform) where
  open pf use {lib, Real}
  open lib use {pp}

  failed_addr : (z : Option ℕ) (h : Head) → (mode_failed_head pf z h).addr ≡ h.addr
  unfolding mode_failed_head
  failed_addr none h = refl
  failed_addr (some z) h = ground arith

  -- The head after its mode failed: the mode is no longer available but remembered as failed, the
  -- other modes are as they were, and the current mode is forgotten.
  pub record ModeFailed (z : ℕ) (m : Mode) (before after : Head) : Type 0 where
    pub available :
        (k : ℕ) → pp.get after.modes k ≡ (if z == k then none else pp.get before.modes k)
    pub remembered : pp.get after.modes_failed z ≡ some m
    pub forgotten : after.cur.zmode ≡ none

  mode_failed_lem :
      (z : ℕ) (m : Mode) (h : Head)
      → pp.get h.modes z ≡ some m
      → ModeFailed z m h (mode_failed_head pf (some z) h)
  unfolding mode_failed_head
  mode_failed_lem z m h e = record {
    available = λ k. pp.get-remove h.modes z k;
    remembered = rw e (pp.get-put h.modes_failed z z m ∙ rw (==_self z));
    forgotten = refl;
  }

  -- The change of the mode of a head that is alive, when it fails.
  after_mode_failure : World Real → ℕ → World Real
  after_mode_failure w addr = destroy_delta (
      change_head addr (mode_failed_head pf w.displ.delta.zmode)
        (tell LogThreshold.error (Message.mode_failed addr) w))

  mode_fails :
      (w : World Real) (addr : ℕ) (h : Head)
      → head_at w.displ.heads addr ≡ some h
      → failure_of pf (some CfgElement.mode) (some addr) w ≡ running (after_mode_failure w addr)
  unfolding failure_of after_mode_failure
  mode_fails w addr h alive = rw (alive, with_head)

  -- When the compositor refuses the mode of a head, that mode is not asked for again: it moves to
  -- the failed modes of the head, the current mode is forgotten, and the change is over.
  pub mode_failure_lem :
      (w : World Real) (addr z : ℕ) (m : Mode) (h : Head)
      → w.displ.delta.element ≡ some CfgElement.mode
      → w.displ.delta.head ≡ some addr
      → w.displ.delta.zmode ≡ some z
      → head_at w.displ.heads addr ≡ some h
      → pp.get h.modes z ≡ some m
      → (v : World Real) × (after : Head) × (act_handle_failure pf w ≡ running v)
        × (head_at v.displ.heads addr ≡ some after)
        × ModeFailed z m h after
        × (v.displ.delta.head ≡ none)
  unfolding act_handle_failure displ_delta_destroy after_mode_failure
  mode_failure_lem w addr z m h el hd zm alive available = (
    after_mode_failure w addr,
    mode_failed_head pf w.displ.delta.zmode h,
    (λ i. failure_of pf (el i) (hd i) w) ∙ mode_fails w addr h alive,
    head_at-update_head w.displ.heads addr (mode_failed_head pf w.displ.delta.zmode)
          (failed_addr w.displ.delta.zmode)
        ∙ ap (apply_to (mode_failed_head pf w.displ.delta.zmode)) alive,
    rw zm (mode_failed_lem z m h available),
    refl,
  )

  failure_faults :
      (w : World Real) (addr : ℕ) (e : CfgElement)
      → head_at w.displ.heads addr ≡ none
      → (e ≡ CfgElement.mode) ⊎ (e ≡ CfgElement.vrr_off)
      → failure_of pf (some e) (some addr) w ≡ fault
  unfolding failure_of
  failure_faults w addr e gone (inl q) = rw q (rw (gone, with_head))
  failure_faults w addr e gone (inr q) = rw q (rw (gone, with_head))

  success_faults :
      (w : World Real) (addr : ℕ) (e : CfgElement)
      → head_at w.displ.heads addr ≡ none
      → (e ≡ CfgElement.mode) ⊎ (e ≡ CfgElement.vrr_off)
      → success_of pf (some e) (some addr) w ≡ fault
  unfolding success_of
  success_faults w addr e gone (inl q) = rw q (rw (gone, with_head))
  success_faults w addr e gone (inr q) = rw q (rw (gone, with_head))

  -- No other head stands at the address of the head with the key.
  abbrev pub IsAlone : List (ℕ × Head) → ℕ → ℕ → Type 0
  IsAlone heads zhead addr =
      (z : ℕ) (h : Head) → In (z, h) heads → h.addr ≡ addr → (z == zhead) ≡ true

  removed_freed :
      (heads : List (ℕ × Head)) (zhead addr : ℕ)
      → IsAlone heads zhead addr
      → head_at (select (λ e. not (e.0 == zhead)) heads) addr ≡ none
  unfolding head_at
  removed_freed [] zhead addr u = refl
  removed_freed ((z, h) ∷ rest) zhead addr u =
      let more = removed_freed rest zhead addr (λ z h i. u z h (inr i)) in
      elim (Bool-cases (z == zhead)) [
        | inl e ↦ rw e more
        | inr e ↦ elim (Bool-cases (h.addr == addr)) [
          | inl same ↦ absurd (false≢true (sym e ∙ u z h (inl refl) ((==_iff _ _).0 same)))
          | inr other ↦ rw e (rw other more)
        ]
      ]

  finished_departs :
      (d : Displ) (zhead dummy : ℕ) (head : Head)
      → pp.get d.heads zhead ≡ some head
      → displ_finished_head pf d zhead dummy ≡ departs pf d zhead head dummy
  unfolding displ_finished_head
  finished_departs d zhead dummy head g = rw (g, displ_finished_head) refl

  departs_freed :
      (d : Displ) (zhead dummy : ℕ) (head : Head)
      → IsAlone d.heads zhead head.addr
      → head_at (departs pf d zhead head dummy).heads head.addr ≡ none
  departs_freed d zhead dummy head u =
      rw (pp.remove_lem d.heads zhead) (removed_freed d.heads zhead head.addr u)

  abbrev pub without_head : World Real → ℕ → ℕ → World Real
  without_head w zhead dummy = record w { displ = displ_finished_head pf w.displ zhead dummy }

  -- Where a head is finished while a change of its mode or adaptive sync is under way, and no other
  -- head stands at its address, it is freed but the change keeps its pointer to it, which is followed
  -- both when the change succeeds and when it fails.
  pub freed_head_faults :
      (w : World Real) (zhead dummy : ℕ) (head : Head) (e : CfgElement)
      → pp.get w.displ.heads zhead ≡ some head
      → IsAlone w.displ.heads zhead head.addr
      → w.displ.delta.element ≡ some e
      → (e ≡ CfgElement.mode) ⊎ (e ≡ CfgElement.vrr_off)
      → w.displ.delta.head ≡ some head.addr
      → (act_handle_success pf (without_head w zhead dummy) ≡ fault)
        × (act_handle_failure pf (without_head w zhead dummy) ≡ fault)
  unfolding act_handle_success act_handle_failure
  freed_head_faults w zhead dummy head e g u el kind hd =
      let v = without_head w zhead dummy in
      let same = finished_departs w.displ zhead dummy head g in
      let gone =
        ap (λ d. head_at d.heads head.addr) same ∙ departs_freed w.displ zhead dummy head u in
      let el' = ap (λ d. d.delta.element) same ∙ el in
      let hd' = ap (λ d. d.delta.head) same ∙ hd in
      (
        (λ i. success_of pf (el' i) (hd' i) (record v { cancellation_retries = 0 }))
            ∙ success_faults (record v { cancellation_retries = 0 }) head.addr e gone kind,
        (λ i. failure_of pf (el' i) (hd' i) v) ∙ failure_faults v head.addr e gone kind,
      )
