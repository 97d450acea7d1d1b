-- ===== src/Server/View.antt =====
-- What the protocol sees of the daemon of src/server.c, and of the events that src/listener handles.
use way_displays.Prelude.{
  ℕ, suc, ◌+◌, ◌≡◌, refl, sym, subst, ◌⊎◌, inl, inr, Bool, true, false, Option, none, some, List,
  [], ◌∷◌, ◌++◌, if◌then◌else◌, arith,
}
use way_displays.Enums.{DisplState}
use way_displays.Platform.{Platform}
use way_displays.Head.{Head}
use way_displays.Displ.{Displ, displ_add_head, displ_finished_head, departs}
use way_displays.Displ.Listeners.{
  Event, arrived, finished, at_head, ended, done, displ_event, cleanup, manager_done,
}
use way_displays.World.{World, Request, apply}
use way_displays.Server.Turn.{displ_events}
use way_displays.Server.Protocol.{Protocol, answer, Steps, here, next, Steps-trans}

abbrev pub is_apply : Request → Bool
is_apply apply = true
is_apply _ = false

-- How many configurations were applied.
abbrev pub applied_in : List Request → ℕ
applied_in [] = 0
applied_in (r ∷ rs) = if is_apply r then suc (applied_in rs) else applied_in rs

abbrev pub is_outstanding : DisplState → Bool
is_outstanding DisplState.outstanding = true
is_outstanding _ = false

-- What the protocol sees of the daemon, where `answered` configurations were answered so far.
abbrev pub view : {Real : Type 0} → ℕ → World Real → Protocol
view answered w = record {
  applied = applied_in w.requests;
  answered = answered;
  waiting = is_outstanding w.displ.state;
}

abbrev pub IsAnswer : DisplState → Type 0
IsAnswer state =
    (state ≡ DisplState.succeeded) ⊎ ((state ≡ DisplState.failed) ⊎ (state ≡ DisplState.cancelled))

abbrev pub is_end : Event → Bool
is_end (ended state) = true
is_end _ = false

abbrev pub answers_in : List Event → ℕ
answers_in [] = 0
answers_in (e ∷ es) = if is_end e then suc (answers_in es) else answers_in es

pub applied_in-append :
    (xs ys : List Request) → applied_in (xs ++ ys) ≡ applied_in xs + applied_in ys
applied_in-append [] ys = omega arith
applied_in-append (x ∷ xs) ys = ground (arith, applied_in-append xs ys)

module _ (pf : Platform) where
  open pf use {lib, Real}
  open lib use {pp}

  -- What the protocol documents of the compositor: it answers a configuration once, by `succeeded`,
  -- `failed` or `cancelled`, and only while one waits.
  abbrev pub EndsOne : Displ → Event → Type 0
  EndsOne d (ended state) = (d.state ≡ DisplState.outstanding) × IsAnswer state
  EndsOne d _ = Unit

  abbrev pub IsPolite : Displ → List Event → Type 0
  IsPolite d [] = Unit
  IsPolite d (e ∷ es) = EndsOne d e × IsPolite (displ_event pf d e) es

  finished-state :
      (d : Displ) (zhead dummy : ℕ) → (displ_finished_head pf d zhead dummy).state ≡ d.state
  unfolding displ_finished_head
  finished-state d zhead dummy =
      elim (pp.get d.heads zhead)
        as (λ (x : Option Head).
          (let r : Displ = elim x [ none ↦ d | some head ↦ departs pf d zhead head dummy ] in
            r).state
          ≡ d.state) [ none ↦ refl | some head ↦ refl ]

  added-state :
      (d : Displ) (zhead : Option ℕ) (addr : ℕ) → (displ_add_head pf d zhead addr).state ≡ d.state
  unfolding displ_add_head
  added-state d none addr = refl
  added-state d (some zhead) addr = refl

  not_waiting : (state : DisplState) → IsAnswer state → is_outstanding state ≡ false
  not_waiting state (inl e) = rw e
  not_waiting state (inr (inl e)) = rw e
  not_waiting state (inr (inr e)) = rw e

  event-Steps :
      (n : ℕ) (w : World Real) (e : Event)
      → EndsOne w.displ e
      → Steps
          (view n w)
          (view (if is_end e then suc n else n) (record w { displ = displ_event pf w.displ e }))
  unfolding displ_event cleanup manager_done
  event-Steps n w (arrived zhead addr) p =
      subst
        (λ (st : DisplState). Steps (view n w) (record (view n w) { waiting = is_outstanding st }))
        (sym (added-state w.displ zhead addr)) here
  event-Steps n w (finished zhead dummy) p =
      subst
        (λ (st : DisplState). Steps (view n w) (record (view n w) { waiting = is_outstanding st }))
        (sym (finished-state w.displ zhead dummy)) here
  event-Steps n w (at_head addr e) p = here
  event-Steps n w (done serial) p = here
  event-Steps n w (ended state) (e, k) =
      subst (λ (b : Bool). Steps (view n w) (record (view (suc n) w) { waiting = b }))
        (sym (not_waiting state k)) (next here (answer (rw e)))

  -- The events that a turn dispatches are answers of the compositor, as many as are among them.
  pub events-Steps :
      (n : ℕ) (w : World Real) (es : List Event)
      → IsPolite w.displ es
      → Steps
          (view n w)
          (view (n + answers_in es) (record w { displ = displ_events pf w.displ es }))
  unfolding displ_events
  events-Steps n w [] p = subst (λ (m : ℕ). Steps (view n w) (view m w)) (omega arith) here
  events-Steps n w (e ∷ es) (p, ps) =
      let w' = record w { displ = displ_event pf w.displ e } in
      let m = if is_end e then suc n else n in
      subst
        (λ (k : ℕ). Steps (view n w) (view k (record w { displ = displ_events pf w'.displ es })))
        (ground arith) (Steps-trans (event-Steps n w e p) (events-Steps m w' es ps))
