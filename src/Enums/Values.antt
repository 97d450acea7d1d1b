-- ===== src/Enums/Values.antt =====
-- The functions of src/enum.c that read a name, as the values of the enumerations: 0, which stands for
-- no value, is `none`. (Every table that they search has its terminator, so a search gives a number.)
use way_displays.Prelude.{ℕ, ◌==◌, Option, none, some, String, List, [], ◌∷◌, first}
use way_displays.Enums.{
  Arrange, Align, OnOff, CfgElement, LogThreshold, arrange_code, align_code, on_off_code,
  cfg_element_code, log_threshold_code, ConditionLid, ScaleRoundStrategy, IpcCommand,
  condition_lid_code, scale_round_strategy_code, ipc_command_code,
}
use way_displays.Enums.Names.{
  _val, _val_start, arranges, aligns, on_offs, cfg_elements, log_thresholds, transforms,
  condition_lids, scale_round_strategies, ipc_commands,
}

-- The enumerator that has the number.
abbrev enumerator : {A : Type 0} → (A → ℕ) → List A → Option ℕ → Option A
enumerator code all none = none
enumerator code all (some v) = first (λ a. code a == v) all

abbrev all_elements : List CfgElement
all_elements =
    CfgElement.arrange ∷ CfgElement.align ∷ CfgElement.order ∷ CfgElement.scaling
    ∷ CfgElement.auto_scale ∷ CfgElement.scale ∷ CfgElement.mode ∷ CfgElement.transform
    ∷ CfgElement.vrr_off ∷ CfgElement.callback_cmd ∷ CfgElement.laptop_display_prefix
    ∷ CfgElement.laptop_lid_monitor ∷ CfgElement.log_threshold ∷ CfgElement.disabled
    ∷ CfgElement.plugged ∷ CfgElement.unplugged ∷ CfgElement.arrange_align
    ∷ CfgElement.auto_scale_dpi ∷ CfgElement.auto_scale_min ∷ CfgElement.auto_scale_max
    ∷ CfgElement.scale_round_to ∷ CfgElement.scale_round_strategy ∷ []

unfoldable pub arrange_val_start : Option String → Option Arrange
arrange_val_start name =
    enumerator arrange_code (Arrange.row ∷ Arrange.col ∷ []) (_val_start arranges name)

unfoldable pub align_val_start : Option String → Option Align
align_val_start name =
    enumerator align_code (Align.top ∷ Align.middle ∷ Align.bottom ∷ Align.left ∷ Align.right ∷ [])
      (_val_start aligns name)

unfoldable pub on_off_val : Option String → Option OnOff
on_off_val name = enumerator on_off_code (OnOff.on ∷ OnOff.off ∷ []) (_val on_offs name)

unfoldable pub cfg_element_val : Option String → Option CfgElement
cfg_element_val name = enumerator cfg_element_code all_elements (_val cfg_elements name)

-- The numbers of libwayland's enumeration; 0 is no transform.
unfoldable pub transform_val : Option String → Option ℕ
transform_val name = enumerator (λ n. n) (1 ∷ 2 ∷ 3 ∷ 4 ∷ 5 ∷ 6 ∷ 7 ∷ []) (_val transforms name)

unfoldable pub log_threshold_val : Option String → Option LogThreshold
log_threshold_val name =
    enumerator log_threshold_code
      (LogThreshold.debug ∷ LogThreshold.info ∷ LogThreshold.warning ∷ LogThreshold.error
        ∷ LogThreshold.fatal ∷ [])
      (_val log_thresholds name)

unfoldable pub condition_lid_val : Option String → Option ConditionLid
condition_lid_val name =
    enumerator condition_lid_code
      (ConditionLid.lid_closed ∷ ConditionLid.lid_open ∷ ConditionLid.lid_not_present ∷ [])
      (_val condition_lids name)

unfoldable pub scale_round_strategy_val : Option String → Option ScaleRoundStrategy
scale_round_strategy_val name =
    enumerator scale_round_strategy_code
      (ScaleRoundStrategy.nearest ∷ ScaleRoundStrategy.up ∷ ScaleRoundStrategy.down ∷ [])
      (_val scale_round_strategies name)

unfoldable pub ipc_command_val : Option String → Option IpcCommand
ipc_command_val name =
    enumerator ipc_command_code
      (IpcCommand.get ∷ IpcCommand.list ∷ IpcCommand.reapply ∷ IpcCommand.cfg_set
        ∷ IpcCommand.cfg_del ∷ IpcCommand.cfg_write ∷ IpcCommand.cfg_toggle ∷ [])
      (_val ipc_commands name)
