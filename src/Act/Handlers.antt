-- ===== src/Act/Handlers.antt =====
-- How src/act.c takes note of the end of a change: success, failure and cancellation.
use way_displays.Prelude.{
  ℕ, suc, leb, Bool, true, false, Option, none, some, [], ◌∷◌, ◌++◌, if◌then◌else◌,
}
use way_displays.Enums.{CfgElement, LogThreshold}
use way_displays.Platform.{Platform}
use way_displays.Mode.{Mode}
use way_displays.Head.{Head}
use way_displays.Head.Changes.{head_current_adaptive_sync_not_desired}
use way_displays.Head.FindMode.{Message}
use way_displays.Displ.{head_at, update_head, displ_delta_destroy}
use way_displays.World.{World, Outcome, running, exited, fault}

abbrev pub max_cancellation_retries : ℕ
max_cancellation_retries = 5

abbrev pub tell : {Real : Type 0} → LogThreshold → Message → World Real → World Real
tell level message w = record w { messages = w.messages ++ (level, message) ∷ [] }

abbrev pub change_head : {Real : Type 0} → ℕ → (Head → Head) → World Real → World Real
change_head addr f w = record w {
  displ = record w.displ { heads = update_head w.displ.heads addr f };
}

abbrev pub destroy_delta : {Real : Type 0} → World Real → World Real
destroy_delta w = record w { displ = displ_delta_destroy w.displ }

-- Uses the head that a pointer points to; a pointer to a head that was freed is a fault.
abbrev pub with_head : {Real : Type 0} → World Real → ℕ → (Head → Outcome Real) → Outcome Real
with_head w addr f = elim (head_at w.displ.heads addr) [ none ↦ fault | some h ↦ f h ]

unfoldable pub vrr_failed_head : Head → Head
vrr_failed_head h = record h { adaptive_sync_failed = true }

-- The count of retries goes on from one cancelled change to the next; only a success resets it.
unfoldable pub act_handle_cancelled : {Real : Type 0} → World Real → World Real × Bool
act_handle_cancelled w =
    let n = suc w.cancellation_retries in
    let v = record w { cancellation_retries = n } in
    if leb n max_cancellation_retries
    then (tell LogThreshold.warning (Message.retrying n) v, true)
    else (tell LogThreshold.warning Message.gave_up v, false)

module _ (pf : Platform) where
  open pf use {lib, Real}
  open lib use {pp}

  -- `ppmap_put(modes_failed, zmode, ppmap_remove(modes, zmode))`, where a NULL value is not put.
  abbrev pub fail_found : Option Mode → ℕ → Head → Head
  fail_found none z h = h
  fail_found (some m) z h = record h { modes_failed = pp.put h.modes_failed z m }

  -- The mode moves to the failed ones, and the current mode is forgotten.
  unfoldable pub mode_failed_head : Option ℕ → Head → Head
  mode_failed_head none h = record h { cur = record h.cur { zmode = none } }
  mode_failed_head (some z) h =
      let g = fail_found (pp.get h.modes z) z h in
      record g { modes = pp.remove h.modes z; cur = record h.cur { zmode = none } }

  -- The `switch` of `act_handle_failure`, on the element and the head of the change.
  unfoldable pub failure_of : Option CfgElement → Option ℕ → World Real → Outcome Real
  unfolding mode_failed_head vrr_failed_head
  failure_of (some CfgElement.mode) none w = running (destroy_delta w)
  failure_of (some CfgElement.mode) (some addr) w = with_head w addr λ h. running (
      destroy_delta (
        change_head addr (mode_failed_head w.displ.delta.zmode)
          (tell LogThreshold.error (Message.mode_failed addr) w)))
  failure_of (some CfgElement.vrr_off) none w = running (destroy_delta w)
  failure_of (some CfgElement.vrr_off) (some addr) w = with_head w addr λ h. running (
      destroy_delta (
        if head_current_adaptive_sync_not_desired h
        then change_head addr vrr_failed_head
            (tell LogThreshold.warning (Message.vrr_failed addr) w)
        else w))
  failure_of _ head w = exited 1 (tell LogThreshold.fatal Message.changes_failed w)

  unfoldable pub act_handle_failure : World Real → Outcome Real
  unfolding failure_of
  act_handle_failure w = failure_of w.displ.delta.element w.displ.delta.head w

  abbrev pub succeeded_with : World Real → Outcome Real
  succeeded_with w = running (destroy_delta (tell LogThreshold.info Message.changes_successful w))

  -- The `switch` of `act_handle_success`, for a change of one head.
  unfoldable pub success_of : Option CfgElement → Option ℕ → World Real → Outcome Real
  unfolding act_handle_failure
  success_of (some CfgElement.mode) (some addr) w = with_head w addr λ h.
      succeeded_with
        (change_head addr (λ g. record g { cur = record g.cur { zmode = w.displ.delta.zmode } }) w)
  success_of (some CfgElement.vrr_off) (some addr) w = with_head w addr λ h.
      if head_current_adaptive_sync_not_desired h then act_handle_failure w else succeeded_with w
  success_of _ head w = succeeded_with w

  unfoldable pub act_handle_success : World Real → Outcome Real
  unfolding success_of
  act_handle_success w =
      success_of w.displ.delta.element w.displ.delta.head (record w { cancellation_retries = 0 })
