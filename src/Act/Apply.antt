-- ===== src/Act/Apply.antt =====
-- `act_apply` of src/act.c: what is asked of the compositor. At most one kind of change is made at a time:
-- the disabling of one head that is to be reapplied, the mode of one head, the adaptive sync of one
-- head, or all else.
use way_displays.Prelude.{ℕ, ◌==◌, false, Option, none, some, List, [], ◌∷◌, ◌++◌, if◌then◌else◌}
use way_displays.Enums.{CfgElement, DisplState}
use way_displays.Platform.{Platform}
use way_displays.Head.{Head}
use way_displays.Head.Changes.{
  head_current_not_desired, head_current_mode_not_desired, head_current_adaptive_sync_not_desired,
  head_reapply_required,
}
use way_displays.Displ.{Displ, update_head, displ_delta_init, displ_delta_destroy}
use way_displays.World.{
  World, Request, create_configuration, enable_head, disable_head, set_mode, set_adaptive_sync,
  set_scale, set_position, set_transform, apply,
}

-- The requests for one head, where all other changes are made.
unfoldable pub other_requests : ℕ × Head → List Request
other_requests (z, h) =
    if h.des.enabled
    then enable_head z
      ∷ set_scale z h.des.scale
      ∷ set_position z h.des.x h.des.y
      ∷ set_transform z h.des.transform
      ∷ []
    else disable_head z ∷ []

unfoldable pub all_requests : List (ℕ × Head) → List Request
unfolding other_requests
all_requests [] = []
all_requests (e ∷ es) = other_requests e ++ all_requests es

-- The four cases, in their order.
pub data Change : Type 0 where
  reapply single_mode single_vrr : ℕ × Head → Change
  others : Change

abbrev first_of_three : Option (ℕ × Head) → Option (ℕ × Head) → Option (ℕ × Head) → Change
first_of_three (some e) _ _ = reapply e
first_of_three none (some e) _ = single_mode e
first_of_three none none (some e) = single_vrr e
first_of_three none none none = others

module _ (pf : Platform) where
  open pf use {lib, Real, head_configuration}
  open lib use {pp}

  -- The loop that collects the heads that are not as desired.
  unfoldable pub collect : List (ℕ × Head) → List (ℕ × Head) → List (ℕ × Head)
  collect changing [] = changing
  collect changing ((z, h) ∷ rest) = collect (pp.put changing z h) rest

  unfoldable pub heads_changing : List (ℕ × Head) → List (ℕ × Head)
  unfolding collect
  heads_changing heads = collect [] (pp.filter_it (λ e. head_current_not_desired e.1) heads)

  unfoldable pub next_change : List (ℕ × Head) → Change
  next_change changing =
      first_of_three (pp.find (λ e. head_reapply_required e.1) changing)
        (pp.find (λ e. head_current_mode_not_desired e.1) changing)
        (pp.find (λ e. head_current_adaptive_sync_not_desired e.1) changing)

  abbrev configured : ℕ → Head → Head
  configured z h = record h { zconfig = some (head_configuration z) }

  -- `head->zconfig` is set for every head that is enabled.
  unfoldable pub configure_all : List (ℕ × Head) → List (ℕ × Head) → List (ℕ × Head)
  configure_all heads [] = heads
  configure_all heads ((z, h) ∷ rest) =
      configure_all (if h.des.enabled then update_head heads h.addr (configured z) else heads) rest

  abbrev pub change_requests : Change → List (ℕ × Head) → List Request
  change_requests (reapply (z, h)) changing = disable_head z ∷ []
  change_requests (single_mode (z, h)) changing = enable_head z ∷ set_mode z h.des.zmode ∷ []
  change_requests (single_vrr (z, h)) changing =
      enable_head z ∷ set_adaptive_sync z h.des.adaptive_sync ∷ []
  change_requests others changing = all_requests changing

  abbrev pub change_displ : Change → List (ℕ × Head) → Displ → Displ
  change_displ (reapply (z, h)) changing d =
      let e = displ_delta_init d none (some h.addr) none in
      record e { heads = update_head d.heads h.addr (λ g. record g { reapply_required = false }) }
  change_displ (single_mode (z, h)) changing d =
      let e = displ_delta_init d (some CfgElement.mode) (some h.addr) h.des.zmode in
      record e { heads = update_head d.heads h.addr (configured z) }
  change_displ (single_vrr (z, h)) changing d =
      let e = displ_delta_init d (some CfgElement.vrr_off) (some h.addr) none in
      record e { heads = update_head d.heads h.addr (configured z) }
  change_displ others changing d =
      let e = displ_delta_init d none none none in
      record e { heads = configure_all d.heads changing }

  abbrev pub make_change : Change → List (ℕ × Head) → World Real → World Real
  make_change c changing w = record w {
    displ = record (change_displ c changing w.displ) { state = DisplState.outstanding };
    requests =
        w.requests
        ++ (create_configuration w.displ.zwlr_output_manager_serial
            ∷ (change_requests c changing ++ (apply ∷ [])));
  }

  unfoldable pub act_apply : World Real → World Real
  unfolding heads_changing next_change configure_all all_requests
  act_apply w =
      let changing = heads_changing w.displ.heads in
      let v = record w { displ = displ_delta_destroy w.displ } in
      if pp.size changing == 0 then v else make_change (next_change changing) changing v
