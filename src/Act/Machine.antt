-- ===== src/Act/Machine.antt =====
-- The machine of src/act.c as a whole: the handlers of the end of a change, and `act`.
use way_displays.Prelude.{
  leb, ltb, suc, ℕ, ◌≡◌, ◌≢◌, refl, ap, ◌∙◌, inl, inr, Bool, true, false, Option, none, some, [],
  ◌∷◌, ◌++◌, arith, if◌then◌else◌,
}
use way_displays.Enums.{CfgElement, DisplState}
use way_displays.Platform.{Platform}
use way_displays.Head.{Head}
use way_displays.Head.Changes.{head_current_adaptive_sync_not_desired}
use way_displays.Displ.{head_at, displ_delta_destroy}
use way_displays.World.{World, Outcome, running, exited, fault, ◌>>=◌, create_configuration, apply}
use way_displays.Act.{in_state, print_arrivals, settle, act_in, act}
use way_displays.Desire.All.{desire}
use way_displays.Act.ApplyLaws.{Asked, apply-Asked}
use way_displays.Act.HandlerLaws.{cancelled_lem}
use way_displays.Act.Handlers.{
  max_cancellation_retries, with_head, failure_of, success_of, act_handle_failure,
  act_handle_success, act_handle_cancelled,
}

module _ (pf : Platform) where
  open pf use {lib, Real}

  -- Nothing is asked of the compositor, and the state, the serial and the configuration are as
  -- they were.
  abbrev pub Quiet : World Real → World Real → Type 0
  Quiet w v =
      (v.requests ≡ w.requests)
      × (v.displ.state ≡ w.displ.state)
      × (v.displ.zwlr_output_manager_serial ≡ w.displ.zwlr_output_manager_serial)
      × (v.cfg ≡ w.cfg)

  abbrev pub EndsQuiet : World Real → Outcome Real → Type 0
  EndsQuiet w (running v) = Quiet w v
  EndsQuiet w (exited status v) = Quiet w v
  EndsQuiet w fault = Unit

  quiet_with_head :
      (w v : World Real) (addr : ℕ) (f : Head → Outcome Real)
      → ((h : Head) → EndsQuiet w (f h))
      → EndsQuiet w (with_head v addr f)
  quiet_with_head w v addr f q =
      elim (head_at v.displ.heads addr)
        as (λ x. EndsQuiet w (elim x [ none ↦ fault | some h ↦ f h ])) [ none ↦ tt | some h ↦ q h ]

  quiet_if :
      (w : World Real) (b : Bool) (x y : Outcome Real)
      → EndsQuiet w x
      → EndsQuiet w y
      → EndsQuiet w (if b then x else y)
  quiet_if w true x y p q = p
  quiet_if w false x y p q = q

  pub quiet_failure :
      (e : Option CfgElement) (a : Option ℕ) (w : World Real) → EndsQuiet w (failure_of pf e a w)
  unfolding failure_of displ_delta_destroy
  quiet_failure (some CfgElement.mode) none w = (refl, refl, refl, refl)
  quiet_failure (some CfgElement.mode) (some addr) w =
      quiet_with_head w w addr _ λ h. (refl, refl, refl, refl)
  quiet_failure (some CfgElement.vrr_off) none w = (refl, refl, refl, refl)
  quiet_failure (some CfgElement.vrr_off) (some addr) w =
      quiet_with_head w w addr _ λ h. ground arith
  quiet_failure e a w = (refl, refl, refl, refl)

  pub quiet_success :
      (e : Option CfgElement) (a : Option ℕ) (w : World Real) → EndsQuiet w (success_of pf e a w)
  unfolding success_of displ_delta_destroy act_handle_failure
  quiet_success (some CfgElement.mode) (some addr) w =
      quiet_with_head w w addr _ λ h. (refl, refl, refl, refl)
  quiet_success (some CfgElement.vrr_off) (some addr) w = quiet_with_head w w addr _ λ h.
      quiet_if w (head_current_adaptive_sync_not_desired h) (act_handle_failure pf w) _
        (quiet_failure w.displ.delta.element w.displ.delta.head w) (refl, refl, refl, refl)
  quiet_success e a w = (refl, refl, refl, refl)

  settle-Asked : (w : World Real) → Asked pf w (settle pf w)
  unfolding settle desire
  settle-Asked w = apply-Asked pf (desire pf w)

  -- What `act` has done: it runs on, with what `Asked` allows, or it has ended without a request.
  abbrev pub Answers : World Real → Outcome Real → Type 0
  Answers w (running v) = Asked pf (in_state DisplState.idle w) v
  Answers w (exited status v) = v.requests ≡ w.requests
  Answers w fault = Unit

  later_Asked :
      (w v x : World Real)
      → Quiet w v
      → Asked pf (in_state DisplState.idle v) x
      → Asked pf (in_state DisplState.idle w) x
  later_Asked w v x (r, s, n, c) (inl (a, b)) = inl (a ∙ r, b)
  later_Asked w v x (r, s, n, c) (inr (body, kind, a, b)) =
      inr (body, kind, a ∙ (λ i. r i ++ (create_configuration (n i) ∷ (body ++ (apply ∷ [])))), b)

  idle_Asked :
      (w x : World Real)
      → w.displ.state ≡ DisplState.idle
      → Asked pf w x
      → Asked pf (in_state DisplState.idle w) x
  idle_Asked w x e (inl (a, b)) = inl (a, b ∙ e)
  idle_Asked w x e (inr (body, kind, a, b)) = inr (body, kind, a, b)

  -- After a cancelled change, in a world that is idle.
  Answers-retry :
      (w v : World Real) (retry : Bool)
      → Quiet (in_state DisplState.idle w) v
      → Answers w (running (if retry then settle pf v else v))
  Answers-retry w v true q =
      later_Asked (in_state DisplState.idle w) v (settle pf v) q
        (idle_Asked v (settle pf v) q.1 (settle-Asked v))
  Answers-retry w v false q = inl (q.0, q.1)

  settled_after :
      (w : World Real) (o : Outcome Real)
      → EndsQuiet w o
      → Answers w (o >>= λ v. running (settle pf (in_state DisplState.idle v)))
  settled_after w (running v) q =
      later_Asked w v (settle pf (in_state DisplState.idle v)) q
        (settle-Asked (in_state DisplState.idle v))
  settled_after w (exited status v) q = q.0
  settled_after w fault q = tt

  act_in-Answers :
      (state : DisplState) (w : World Real)
      → w.displ.state ≡ state
      → state ≢ DisplState.outstanding
      → Answers w (act_in pf state w)
  unfolding act_in act_handle_failure act_handle_success act_handle_cancelled
  act_in-Answers DisplState.succeeded w e n = settled_after w (act_handle_success pf w) (
      quiet_success w.displ.delta.element w.displ.delta.head
        (record w { cancellation_retries = 0 }))
  act_in-Answers DisplState.outstanding w e n = elim (n refl) [ ]
  act_in-Answers DisplState.failed w e n =
      settled_after w (act_handle_failure pf w)
        (quiet_failure w.displ.delta.element w.displ.delta.head w)
  act_in-Answers DisplState.cancelled w e n =
      let w' = in_state DisplState.idle w in
      let (count, retry, same, asked, kept) = cancelled_lem w' in
      Answers-retry w (act_handle_cancelled w').0 (act_handle_cancelled w').1
        (asked, ap (λ d. d.state) same, ap (λ d. d.zwlr_output_manager_serial) same, kept)
  act_in-Answers DisplState.idle w e n = idle_Asked w (settle pf w) e (settle-Asked w)

  -- Where no configuration is outstanding, `act` makes at most one: it leaves the display idle with
  -- nothing asked, or it leaves one configuration outstanding that it has made for the latest serial
  -- of the compositor, and that reapplies one head, or sets the mode of one head, or the adaptive
  -- sync of one head, or none of these. Where it ends the program, it has asked for nothing;
  -- a fault, after which C says nothing, is left aside.
  pub one_configuration :
      (w : World Real) → w.displ.state ≢ DisplState.outstanding → Answers w (act pf w)
  unfolding act
  one_configuration w n = act_in-Answers w.displ.state (print_arrivals w) refl n

  -- A cancelled change leaves the display idle, with nothing asked and the heads and the configuration
  -- as they were, and counts; from there, where fewer than five cancelled changes were counted before
  -- it, the heads are desired and applied again, and otherwise nothing follows.
  pub act_cancelled_lem :
      (w : World Real)
      → w.displ.state ≡ DisplState.cancelled
      → (v : World Real) × (act pf w
          ≡ running (if ltb w.cancellation_retries 5 then settle pf v else v))
        × (v.cancellation_retries ≡ suc w.cancellation_retries)
        × (v.requests ≡ w.requests)
        × (v.displ.state ≡ DisplState.idle)
        × (v.displ.heads ≡ w.displ.heads)
        × (v.cfg ≡ w.cfg)
  unfolding act act_in
  act_cancelled_lem w e =
      let w' = in_state DisplState.idle (print_arrivals w) in
      let v = (act_handle_cancelled w').0 in
      let (count, retry, same, asked, kept) = cancelled_lem w' in
      let fewer : leb (suc w.cancellation_retries) 5 ≡ ltb w.cancellation_retries 5 =
        ground arith in
      let again : (act_handle_cancelled w').1 ≡ ltb w.cancellation_retries 5 =
        retry ∙ ap (λ n. leb n max_cancellation_retries) count ∙ fewer in
      (
        v,
        (λ i. act_in pf (e i) (print_arrivals w))
            ∙ (λ i. running (if again i then settle pf v else v)),
        count,
        asked,
        ap (λ d. d.state) same,
        ap (λ d. d.heads) same,
        kept,
      )
