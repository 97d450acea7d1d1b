-- ===== src/Head/Override.antt =====
-- The overrides of conditionally disabled heads by IPC requests: `head_override_ipc_disableds` and
-- `head_apply_disabled_toggle` of src/head.c, with `cfg_disabled_conditionally_for_head` of
-- src/cfg/disabled.c. The log is not modelled.
use way_displays.Prelude.{ltb, Bool, ◌&&◌, Option, none, some, String, List, [], ◌∷◌, if◌then◌else◌}
use way_displays.Enums.{IpcCommand, ManualOverride}
use way_displays.Platform.{Platform}
use way_displays.Cfg.{Cfg, CfgDisabled}
use way_displays.Head.{Head}
use way_displays.Head.Matching.{head_matches_name_desc}

-- An override that is present is taken back; otherwise the opposite of what is current is forced.
unfoldable pub head_apply_disabled_toggle : Head → Head
head_apply_disabled_toggle head = record head {
  overrided_enabled = elim head.overrided_enabled [
    | ManualOverride.no_override ↦
        if head.cur.enabled then ManualOverride.override_false else ManualOverride.override_true
    | ManualOverride.override_true ↦ ManualOverride.no_override
    | ManualOverride.override_false ↦ ManualOverride.no_override
  ];
}

-- The `switch` on the command.
unfoldable pub override_by : IpcCommand → Head → Head
unfolding head_apply_disabled_toggle
override_by IpcCommand.cfg_toggle head = head_apply_disabled_toggle head
override_by IpcCommand.cfg_del head =
    if head.cur.enabled then head else head_apply_disabled_toggle head
override_by IpcCommand.cfg_set head =
    if head.cur.enabled then head_apply_disabled_toggle head else head
override_by _ head = head

abbrev Disableds : Type 0
Disableds = List (String × CfgDisabled)

module _ (pf : Platform) where
  open pf use {lib, Real}
  open lib use {sp, ps}

  unfoldable pub cfg_disabled_conditionally_for_head : Head → String × CfgDisabled → Bool
  cfg_disabled_conditionally_for_head head (name_desc, disabled) =
      ltb 0 (ps.size disabled.conditions) && head_matches_name_desc pf head name_desc

  -- The inner loop: each entry of the configuration is noted, and the entry of the request with it.
  unfoldable pub note_each :
      String × CfgDisabled → Disableds → Disableds × Disableds → Disableds × Disableds
  note_each req [] noted = noted
  note_each req ((k, d) ∷ rest) (of_cfg, of_req) =
      note_each req rest (sp.put of_cfg k d, sp.put of_req req.0 req.1)

  -- The outer loop.
  unfoldable pub note_all : Disableds → Disableds → Disableds × Disableds → Disableds × Disableds
  unfolding note_each
  note_all [] conditional noted = noted
  note_all (req ∷ rest) conditional noted =
      note_all rest conditional (note_each req conditional noted)

  -- The head, and the entries of the request that were applied as overrides. A request without a
  -- configuration has none.
  unfoldable pub head_override_ipc_disableds :
      Cfg Real → Option (Cfg Real) → IpcCommand → Head → Head × Disableds
  unfolding note_all override_by cfg_disabled_conditionally_for_head
  head_override_ipc_disableds cfg none command head = (head, [])
  head_override_ipc_disableds cfg (some req) command head =
      let (of_cfg, of_req) =
        note_all (sp.filter_it (λ e. head_matches_name_desc pf head e.0) req.disableds)
          (sp.filter_it (cfg_disabled_conditionally_for_head head) cfg.disableds) ([], []) in
      (if ltb 0 (sp.size of_cfg) then override_by command head else head, of_req)
