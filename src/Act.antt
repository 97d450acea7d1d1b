-- ===== src/Act.antt =====
-- src/act.c: the state machine that applies what is desired, one change at a time, and takes note of how
-- it ended. The wording of messages and the human description of a change are not modelled.
pub mod Apply
pub mod Handlers
pub mod ApplyLaws
pub mod HandlerLaws
pub mod Machine
pub mod Settled
pub mod AtRest
pub mod Validity
pub mod Refusals
use way_displays.Prelude.{
  ℕ, suc, leb, Bool, true, false, Option, none, some, List, [], ◌∷◌, ◌++◌, if◌then◌else◌,
}
use way_displays.Enums.{CfgElement, DisplState, LogThreshold}
use way_displays.Platform.{Platform}
use way_displays.Displ.{Displ}
use way_displays.World.{World, Outcome, running, exited, fault, ◌>>=◌}
use way_displays.Desire.All.{desire}
use Apply.{act_apply}
use Handlers.{act_handle_success, act_handle_failure, act_handle_cancelled}

-- `g_displ->state = state`.
abbrev pub in_state : {Real : Type 0} → DisplState → World Real → World Real
in_state state w = record w { displ = record w.displ { state = state } }

-- The arrivals and departures are printed and forgotten.
abbrev pub print_arrivals : {Real : Type 0} → World Real → World Real
print_arrivals w = record w { displ = record w.displ { heads_arrived = []; heads_departed = [] } }

module _ (pf : Platform) where
  open pf use {Real}

  -- `desire(); act_apply();`
  unfoldable pub settle : World Real → World Real
  settle w = act_apply pf (desire pf w)

  -- The `switch` on the state.
  unfoldable pub act_in : DisplState → World Real → Outcome Real
  unfolding settle
  act_in DisplState.succeeded w =
      act_handle_success pf w >>= λ v. running (settle (in_state DisplState.idle v))
  act_in DisplState.outstanding w = running w
  act_in DisplState.failed w =
      act_handle_failure pf w >>= λ v. running (settle (in_state DisplState.idle v))
  act_in DisplState.cancelled w =
      let (v, retry) = act_handle_cancelled (in_state DisplState.idle w) in
      running (if retry then settle v else v)
  act_in DisplState.idle w = running (settle w)

  unfoldable pub act : World Real → Outcome Real
  unfolding act_in
  act w = act_in w.displ.state (print_arrivals w)
