-- ===== src/Enums/Names.antt =====
-- The tables of src/enum.c and the functions that search them. A table is the array of the source,
-- its terminator included; a search that runs past the end of the array reads memory that is not
-- the table's, and answers `none`.
use way_displays.Prelude.{ℕ, Option, none, some, String, List, [], ◌∷◌, ◌==◌, if◌then◌else◌}
use way_displays.Prelude.Text.{strcasecmp, starts_with_case, strlen}
use way_displays.Enums.{
  Arrange, Align, OnOff, ConditionLid, ScaleRoundStrategy, CfgElement, IpcCommand, LogThreshold,
  ManualOverride, DisplState, arrange_code, align_code, on_off_code, condition_lid_code,
  scale_round_strategy_code, cfg_element_code, ipc_command_code, log_threshold_code,
  manual_override_code, displ_state_code,
}

pub record NameVal : Type 0 where
  pub val : ℕ
  pub name : Option String

abbrev entry : ℕ → String → NameVal
entry v s = record { val = v; name = some s }

-- `{ .val = 0, .name = NULL }`
abbrev terminator : NameVal
terminator = record { val = 0; name = none }

abbrev pub cfg_elements : List NameVal
cfg_elements =
    entry (cfg_element_code CfgElement.arrange) "ARRANGE"
    ∷ entry (cfg_element_code CfgElement.align) "ALIGN"
    ∷ entry (cfg_element_code CfgElement.order) "ORDER"
    ∷ entry (cfg_element_code CfgElement.scaling) "SCALING"
    ∷ entry (cfg_element_code CfgElement.auto_scale) "AUTO_SCALE"
    ∷ entry (cfg_element_code CfgElement.scale) "SCALE"
    ∷ entry (cfg_element_code CfgElement.scale_round_to) "SCALE_ROUND_TO"
    ∷ entry (cfg_element_code CfgElement.scale_round_strategy) "SCALE_ROUND_STRATEGY"
    ∷ entry (cfg_element_code CfgElement.mode) "MODE"
    ∷ entry (cfg_element_code CfgElement.vrr_off) "VRR_OFF"
    ∷ entry (cfg_element_code CfgElement.callback_cmd) "CALLBACK_CMD"
    ∷ entry (cfg_element_code CfgElement.laptop_display_prefix) "LAPTOP_DISPLAY_PREFIX"
    ∷ entry (cfg_element_code CfgElement.laptop_lid_monitor) "LAPTOP_LID_MONITOR"
    ∷ entry (cfg_element_code CfgElement.transform) "TRANSFORM"
    ∷ entry (cfg_element_code CfgElement.log_threshold) "LOG_THRESHOLD"
    ∷ entry (cfg_element_code CfgElement.disabled) "DISABLED"
    ∷ entry (cfg_element_code CfgElement.plugged) "PLUGGED"
    ∷ entry (cfg_element_code CfgElement.unplugged) "UNPLUGGED"
    ∷ entry (cfg_element_code CfgElement.arrange_align) "ARRANGE_ALIGN"
    ∷ entry (cfg_element_code CfgElement.auto_scale_dpi) "AUTO_SCALE_DPI"
    ∷ entry (cfg_element_code CfgElement.auto_scale_min) "AUTO_SCALE_MIN"
    ∷ entry (cfg_element_code CfgElement.auto_scale_max) "AUTO_SCALE_MAX"
    ∷ terminator
    ∷ []

abbrev pub arranges : List NameVal
arranges =
    entry (arrange_code Arrange.row) "ROW"
    ∷ entry (arrange_code Arrange.col) "COLUMN"
    ∷ terminator
    ∷ []

abbrev pub aligns : List NameVal
aligns =
    entry (align_code Align.top) "TOP"
    ∷ entry (align_code Align.middle) "MIDDLE"
    ∷ entry (align_code Align.bottom) "BOTTOM"
    ∷ entry (align_code Align.left) "LEFT"
    ∷ entry (align_code Align.right) "RIGHT"
    ∷ terminator
    ∷ []

abbrev pub on_offs : List NameVal
on_offs =
    entry (on_off_code OnOff.on) "ON"
    ∷ entry (on_off_code OnOff.off) "OFF"
    ∷ entry (on_off_code OnOff.on) "TRUE"
    ∷ entry (on_off_code OnOff.off) "FALSE"
    ∷ entry (on_off_code OnOff.on) "YES"
    ∷ entry (on_off_code OnOff.off) "NO"
    ∷ terminator
    ∷ []

abbrev pub ipc_commands : List NameVal
ipc_commands =
    entry (ipc_command_code IpcCommand.get) "GET"
    ∷ entry (ipc_command_code IpcCommand.list) "LIST"
    ∷ entry (ipc_command_code IpcCommand.reapply) "REAPPLY"
    ∷ entry (ipc_command_code IpcCommand.cfg_set) "CFG_SET"
    ∷ entry (ipc_command_code IpcCommand.cfg_del) "CFG_DEL"
    ∷ entry (ipc_command_code IpcCommand.cfg_write) "CFG_WRITE"
    ∷ entry (ipc_command_code IpcCommand.cfg_toggle) "CFG_TOGGLE"
    ∷ terminator
    ∷ []

abbrev pub transforms : List NameVal
transforms =
    entry 1 "90"
    ∷ entry 2 "180"
    ∷ entry 3 "270"
    ∷ entry 4 "FLIPPED"
    ∷ entry 5 "FLIPPED-90"
    ∷ entry 6 "FLIPPED-180"
    ∷ entry 7 "FLIPPED-270"
    ∷ terminator
    ∷ []

abbrev pub log_thresholds : List NameVal
log_thresholds =
    entry (log_threshold_code LogThreshold.debug) "DEBUG"
    ∷ entry (log_threshold_code LogThreshold.info) "INFO"
    ∷ entry (log_threshold_code LogThreshold.warning) "WARNING"
    ∷ entry (log_threshold_code LogThreshold.error) "ERROR"
    ∷ entry (log_threshold_code LogThreshold.fatal) "FATAL"
    ∷ terminator
    ∷ []

abbrev pub manual_overrides : List NameVal
manual_overrides =
    entry (manual_override_code ManualOverride.no_override) "NoOverride"
    ∷ entry (manual_override_code ManualOverride.override_true) "OverrideTrue"
    ∷ entry (manual_override_code ManualOverride.override_false) "OverrideFalse"
    ∷ []

abbrev pub displ_states : List NameVal
displ_states =
    entry (displ_state_code DisplState.idle) "IDLE"
    ∷ entry (displ_state_code DisplState.succeeded) "SUCCEEDED"
    ∷ entry (displ_state_code DisplState.outstanding) "OUTSTANDING"
    ∷ entry (displ_state_code DisplState.cancelled) "CANCELLED"
    ∷ entry (displ_state_code DisplState.failed) "FAILED"
    ∷ terminator
    ∷ []

abbrev pub condition_lids : List NameVal
condition_lids =
    entry (condition_lid_code ConditionLid.lid_open) "OPEN"
    ∷ entry (condition_lid_code ConditionLid.lid_closed) "CLOSED"
    ∷ entry (condition_lid_code ConditionLid.lid_not_present) "NOT_PRESENT"
    ∷ terminator
    ∷ []

abbrev pub scale_round_strategies : List NameVal
scale_round_strategies =
    entry (scale_round_strategy_code ScaleRoundStrategy.nearest) "NEAREST"
    ∷ entry (scale_round_strategy_code ScaleRoundStrategy.up) "UP"
    ∷ entry (scale_round_strategy_code ScaleRoundStrategy.down) "DOWN"
    ∷ terminator
    ∷ []

abbrev pub scale_round_tos : List NameVal
scale_round_tos = entry 8 "0.125" ∷ entry 4 "0.25" ∷ entry 2 "0.5" ∷ entry 1 "1" ∷ terminator ∷ []

-- `_val`: the value of the first entry that has the name, without case; the terminator's where none
-- has, and 0 for a NULL name.
unfoldable pub val_in : List NameVal → String → Option ℕ
val_in [] s = none
val_in (e ∷ es) s = elim e.name [
  | none ↦ some e.val
  | some n ↦ if strcasecmp n s then some e.val else val_in es s
]

unfoldable pub _val : List NameVal → Option String → Option ℕ
unfolding val_in
_val t none = some 0
_val t (some s) = val_in t s

-- `_val_start`: the value of the first entry whose name begins with the text, without case.
unfoldable pub val_start_in : List NameVal → String → Option ℕ
val_start_in [] s = none
val_start_in (e ∷ es) s = elim e.name [
  | none ↦ some e.val
  | some n ↦ if starts_with_case n s then some e.val else val_start_in es s
]

unfoldable pub _val_start : List NameVal → Option String → Option ℕ
unfolding val_start_in
_val_start t none = some 0
_val_start t (some s) = if strlen s == 0 then some 0 else val_start_in t s

-- `_name`: the name of the first entry with the value, NULL (`some none`) where none has it.
unfoldable pub _name : List NameVal → ℕ → Option (Option String)
_name [] v = none
_name (e ∷ es) v = elim e.name [
  | none ↦ some none
  | some n ↦ if v == e.val then some (some n) else _name es v
]
