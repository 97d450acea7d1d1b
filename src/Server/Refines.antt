-- ===== src/Server/Refines.antt =====
-- The daemon of src/server.c follows the protocol: a turn of its loop is answers of the compositor, and
-- then at most one new configuration.
use way_displays.Prelude.{
  ℕ, suc, ◌+◌, ◌≡◌, refl, sym, ◌∙◌, ap, subst, inl, inr, false, not, Option, none, some, List, [],
  ◌∷◌, ◌++◌, All, arith, pick,
}
use way_displays.Enums.{DisplState}
use way_displays.Platform.{Platform}
use way_displays.World.{
  World, Request, Outcome, running, exited, fault, create_configuration, enable_head, disable_head,
  set_mode, set_adaptive_sync, set_scale, set_position, set_transform, apply,
}
use way_displays.Act.{act, act_in, print_arrivals}
use way_displays.Act.Machine.{Answers, one_configuration}
use way_displays.Ipc.{IpcOperation}
use way_displays.Server.{Server, goes_on}
use way_displays.Server.Turn.{
  Input, dispatch, signalled, after_act, act_turn, inform, informed_of, reported, react, turn,
}
use way_displays.Server.Kept.{
  Holds, Holds-bind, IsKept, until_act-Keeps, signalled-Keeps, notify-world,
}
use way_displays.Server.Protocol.{
  Protocol, ask, Steps, here, next, Steps-trans, IsBalanced, Steps-IsBalanced,
}
use way_displays.Act.ApplyLaws.{IsOneKind, IsPlain}
use way_displays.Server.View.{
  applied_in, applied_in-append, is_outstanding, view, answers_in, IsPolite, events-Steps,
}

plain_applied : (xs : List Request) → All IsPlain xs → applied_in xs ≡ 0
plain_applied [] a = refl
plain_applied (apply ∷ xs) (p, a) = elim p [ ]
plain_applied (create_configuration n ∷ xs) (p, a) = plain_applied xs a
plain_applied (enable_head z ∷ xs) (p, a) = plain_applied xs a
plain_applied (disable_head z ∷ xs) (p, a) = plain_applied xs a
plain_applied (set_mode z m ∷ xs) (p, a) = plain_applied xs a
plain_applied (set_adaptive_sync z m ∷ xs) (p, a) = plain_applied xs a
plain_applied (set_scale z m ∷ xs) (p, a) = plain_applied xs a
plain_applied (set_position z m y ∷ xs) (p, a) = plain_applied xs a
plain_applied (set_transform z m ∷ xs) (p, a) = plain_applied xs a

one_kind_applied : (xs : List Request) → IsOneKind xs → applied_in xs ≡ 0
one_kind_applied xs (inl (z, e)) = ap applied_in e
one_kind_applied xs (inr (inl (z, m, e))) = ap applied_in e
one_kind_applied xs (inr (inr (inl (z, a, e)))) = ap applied_in e
one_kind_applied xs (inr (inr (inr a))) = plain_applied xs a

-- One configuration is applied once.
once_applied :
    (rs body : List Request) (serial : ℕ)
    → IsOneKind body
    → applied_in (rs ++ (create_configuration serial ∷ (body ++ (apply ∷ []))))
      ≡ suc (applied_in rs)
once_applied rs body serial k =
    applied_in-append rs (create_configuration serial ∷ (body ++ (apply ∷ [])))
    ∙ ap (λ (n : ℕ). applied_in rs + n) (applied_in-append body (apply ∷ []))
    ∙ ground (arith, one_kind_applied body k)

module _ (pf : Platform) where
  open pf use {lib, Real}
  open lib use {pp}

  abbrev StepsTo : Protocol → ℕ → Outcome Real → Type 0
  StepsTo p n (running v) = Steps p (view n v)
  StepsTo p n (exited status v) = Unit
  StepsTo p n fault = Unit

  view-Path :
      (n : ℕ) (w v : World Real)
      → applied_in v.requests ≡ applied_in w.requests
      → is_outstanding v.displ.state ≡ is_outstanding w.displ.state
      → view n v ≡ view n w
  view-Path n w v a b i = record { applied = a i; answered = n; waiting = b i }

  Answers-Steps :
      (n : ℕ) (w : World Real) (o : Outcome Real)
      → is_outstanding w.displ.state ≡ false
      → Answers pf w o
      → StepsTo (view n w) n o
  Answers-Steps n w (running v) e (inl (a, b)) =
      subst (Steps (view n w))
        (sym (view-Path n w v (ap applied_in a) (ap is_outstanding b ∙ sym e))) here
  Answers-Steps n w (running v) e (inr (body, kind, a, b)) =
      subst (λ (p : Protocol). Steps (view n w) p)
        (λ i. record {
          applied =
              sym
                (ap applied_in a
                  ∙ once_applied w.requests body w.displ.zwlr_output_manager_serial kind)
                i;
          answered = n;
          waiting = sym (ap is_outstanding b) i;
        })
        (next here (ask e))
  Answers-Steps n w (exited status v) e a = tt
  Answers-Steps n w fault e a = tt

  waits-Steps :
      (n : ℕ) (w : World Real)
      → w.displ.state ≡ DisplState.outstanding
      → StepsTo (view n w) n (act pf w)
  unfolding act act_in
  waits-Steps n w e =
      subst (λ s. StepsTo (view n w) n (act_in pf s (print_arrivals w))) (sym e) here

  act_from :
      (s : DisplState) (n : ℕ) (w : World Real)
      → w.displ.state ≡ s
      → StepsTo (view n w) n (act pf w)
  act_from DisplState.outstanding n w e = waits-Steps n w e
  act_from DisplState.idle n w e =
      Answers-Steps n w (act pf w) (rw e) (one_configuration pf w (λ q. cc))
  act_from DisplState.succeeded n w e =
      Answers-Steps n w (act pf w) (rw e) (one_configuration pf w (λ q. cc))
  act_from DisplState.cancelled n w e =
      Answers-Steps n w (act pf w) (rw e) (one_configuration pf w (λ q. cc))
  act_from DisplState.failed n w e =
      Answers-Steps n w (act pf w) (rw e) (one_configuration pf w (λ q. cc))

  pub act-Steps : (n : ℕ) (w : World Real) → StepsTo (view n w) n (act pf w)
  act-Steps n w = act_from w.displ.state n w refl

  -- From one view of the protocol, `n` answers later.
  abbrev From : Protocol → ℕ → Server Real → Type 0
  From p n s = Steps p (view n s.world)

  from_kept : (p : Protocol) (n : ℕ) → IsKept pf (λ w. Steps p (view n w))
  from_kept p n = record {
    by_merge = λ w req command m e v. v;
    by_reload = λ w fs f log v. v;
    by_heads = λ w heads v. v;
    by_lid = λ w lid v. v;
  }

  acted-From :
      (p : Protocol) (n : ℕ) (s : Server Real) (o : Outcome Real)
      → StepsTo (view n s.world) n o
      → From p n s
      → Holds (From p n) (after_act pf s o)
  acted-From p n s (running w) a f = Steps-trans f a
  acted-From p n s (exited status w) a f = tt
  acted-From p n s fault a f = tt

  act_turn-From :
      (p : Protocol) (n : ℕ) (s : Server Real) → From p n s → Holds (From p n) (act_turn pf s)
  unfolding act_turn
  act_turn-From p n s f = acted-From p n s (act pf s.world) (act-Steps n s.world) f

  informed-From :
      (p : Protocol) (n : ℕ) (i : Input Real) (s : Server Real) (o : Option (IpcOperation Real))
      → From p n s
      → From p n (informed_of pf i.act_lines i.report s o)
  informed-From p n i s none f = f
  informed-From p n i s (some o) f =
      subst (λ (w : World Real). Steps p (view n w))
        (sym (
          notify-world i.report
            (record s { operation = some (reported pf i.act_lines s.world.displ.state o) })))
        f

  react-From :
      (p : Protocol) (n : ℕ) (i : Input Real) (s : Server Real)
      → From p n s
      → Holds (From p n) (react pf i s)
  unfolding react inform
  react-From p n i s f =
      Holds-bind (From p n) (From p n) _ _
        (Holds-bind (From p n) (From p n) _ (act_turn pf)
          (until_act-Keeps pf (λ w. Steps p (view n w)) (from_kept p n) i s f) (act_turn-From p n))
        (λ t h. informed-From p n i t t.operation h)

  turn-From :
      (n : ℕ) (i : Input Real) (s : Server Real)
      → IsPolite pf s.world.displ i.events
      → Holds (From (view n s.world) (n + answers_in i.events)) (turn pf i s)
  unfolding turn dispatch
  turn-From n i s polite =
      let t = dispatch pf i.events s in
      let m = n + answers_in i.events in
      let P : Server Real → Type 0 = From (view n s.world) m in
      pick (Holds P) (not i.polled) _ _ (λ e. tt)
        λ e.
          pick (Holds P) (not i.read) _ _ (λ e. tt)
            λ e.
              pick (Holds P) (not i.output_manager) _ _ (λ e. tt)
                λ e.
                  Holds-bind P P (signalled pf i.signal t) (react pf i)
                    (signalled-Keeps pf (λ w. Steps (view n s.world) (view m w))
                      (from_kept (view n s.world) m) i.signal t
                      (events-Steps pf n s.world i.events polite))
                    (react-From (view n s.world) m i)

  -- A turn of the daemon that goes on refines the protocol: where the compositor answers only the
  -- configuration that waits, once, and by succeeded, failed or cancelled, the turn is steps of the
  -- protocol, with one answer for each that the compositor gave.
  pub turn-Steps :
      (n : ℕ) (i : Input Real) (s t : Server Real)
      → IsPolite pf s.world.displ i.events
      → turn pf i s ≡ goes_on t
      → Steps (view n s.world) (view (n + answers_in i.events) t.world)
  turn-Steps n i s t polite e =
      subst (Holds (From (view n s.world) (n + answers_in i.events))) e (turn-From n i s polite)

  -- Where every configuration that was applied has been answered but the one that waits, and the
  -- compositor answers only what waits, once, and by succeeded, failed or cancelled, the same is so
  -- after a turn of the daemon that goes on: two configurations never wait at the same time.
  pub turn-IsBalanced :
      (n : ℕ) (i : Input Real) (s t : Server Real)
      → IsPolite pf s.world.displ i.events
      → IsBalanced (view n s.world)
      → turn pf i s ≡ goes_on t
      → IsBalanced (view (n + answers_in i.events) t.world)
  turn-IsBalanced n i s t polite b e = Steps-IsBalanced (turn-Steps n i s t polite e) b
