-- ===== src/Enums.antt =====
-- inc/enum.h and src/enum.c: the enumerations of the configuration, of IPC and of the display, and
-- the tables that name them. Where C has 0 for "not set" a field is an `Option` of these types; the
-- tables hold the numbers, which `code` gives.
pub mod Names
pub mod Values
pub mod RoundTrip
use way_displays.Prelude.{ℕ}

pub data Arrange : Type 0 where
  row col : Arrange

pub data Align : Type 0 where
  top middle bottom left right : Align

pub data OnOff : Type 0 where
  on off : OnOff

pub data ConditionLid : Type 0 where
  lid_closed lid_open lid_not_present : ConditionLid

pub data ScaleRoundStrategy : Type 0 where
  nearest up down : ScaleRoundStrategy

pub data CfgElement : Type 0 where
  arrange align order scaling auto_scale scale mode transform vrr_off callback_cmd : CfgElement
  laptop_display_prefix laptop_lid_monitor log_threshold disabled plugged unplugged : CfgElement
  arrange_align auto_scale_dpi auto_scale_min auto_scale_max scale_round_to : CfgElement
  scale_round_strategy : CfgElement

pub data IpcCommand : Type 0 where
  get list reapply cfg_set cfg_del cfg_write cfg_toggle : IpcCommand

pub data LogThreshold : Type 0 where
  debug info warning error fatal : LogThreshold

pub data ManualOverride : Type 0 where
  no_override override_true override_false : ManualOverride

pub data DisplState : Type 0 where
  idle succeeded outstanding cancelled failed : DisplState

pub data IpcRc : Type 0 where
  ipc_success ipc_warn ipc_error ipc_bad_request ipc_bad_response ipc_request_in_progress : IpcRc

-- The numbers of the enumerators.
abbrev pub arrange_code : Arrange → ℕ
arrange_code Arrange.row = 1
arrange_code Arrange.col = 2

abbrev pub align_code : Align → ℕ
align_code Align.top = 1
align_code Align.middle = 2
align_code Align.bottom = 3
align_code Align.left = 4
align_code Align.right = 5

abbrev pub on_off_code : OnOff → ℕ
on_off_code OnOff.on = 1
on_off_code OnOff.off = 2

abbrev pub condition_lid_code : ConditionLid → ℕ
condition_lid_code ConditionLid.lid_closed = 1
condition_lid_code ConditionLid.lid_open = 2
condition_lid_code ConditionLid.lid_not_present = 3

abbrev pub scale_round_strategy_code : ScaleRoundStrategy → ℕ
scale_round_strategy_code ScaleRoundStrategy.nearest = 1
scale_round_strategy_code ScaleRoundStrategy.up = 2
scale_round_strategy_code ScaleRoundStrategy.down = 3

abbrev pub cfg_element_code : CfgElement → ℕ
cfg_element_code CfgElement.arrange = 1
cfg_element_code CfgElement.align = 2
cfg_element_code CfgElement.order = 3
cfg_element_code CfgElement.scaling = 4
cfg_element_code CfgElement.auto_scale = 5
cfg_element_code CfgElement.scale = 6
cfg_element_code CfgElement.mode = 7
cfg_element_code CfgElement.transform = 8
cfg_element_code CfgElement.vrr_off = 9
cfg_element_code CfgElement.callback_cmd = 10
cfg_element_code CfgElement.laptop_display_prefix = 11
cfg_element_code CfgElement.laptop_lid_monitor = 12
cfg_element_code CfgElement.log_threshold = 13
cfg_element_code CfgElement.disabled = 14
cfg_element_code CfgElement.plugged = 15
cfg_element_code CfgElement.unplugged = 16
cfg_element_code CfgElement.arrange_align = 17
cfg_element_code CfgElement.auto_scale_dpi = 18
cfg_element_code CfgElement.auto_scale_min = 19
cfg_element_code CfgElement.auto_scale_max = 20
cfg_element_code CfgElement.scale_round_to = 21
cfg_element_code CfgElement.scale_round_strategy = 22

abbrev pub ipc_command_code : IpcCommand → ℕ
ipc_command_code IpcCommand.get = 1
ipc_command_code IpcCommand.list = 2
ipc_command_code IpcCommand.reapply = 3
ipc_command_code IpcCommand.cfg_set = 4
ipc_command_code IpcCommand.cfg_del = 5
ipc_command_code IpcCommand.cfg_write = 6
ipc_command_code IpcCommand.cfg_toggle = 7

abbrev pub log_threshold_code : LogThreshold → ℕ
log_threshold_code LogThreshold.debug = 1
log_threshold_code LogThreshold.info = 2
log_threshold_code LogThreshold.warning = 3
log_threshold_code LogThreshold.error = 4
log_threshold_code LogThreshold.fatal = 5

abbrev pub manual_override_code : ManualOverride → ℕ
manual_override_code ManualOverride.no_override = 0
manual_override_code ManualOverride.override_true = 1
manual_override_code ManualOverride.override_false = 2

abbrev pub displ_state_code : DisplState → ℕ
displ_state_code DisplState.idle = 0
displ_state_code DisplState.succeeded = 1
displ_state_code DisplState.outstanding = 2
displ_state_code DisplState.cancelled = 3
displ_state_code DisplState.failed = 4

abbrev pub ipc_rc_code : IpcRc → ℕ
ipc_rc_code IpcRc.ipc_success = 0
ipc_rc_code IpcRc.ipc_warn = 1
ipc_rc_code IpcRc.ipc_error = 2
ipc_rc_code IpcRc.ipc_bad_request = 11
ipc_rc_code IpcRc.ipc_bad_response = 12
ipc_rc_code IpcRc.ipc_request_in_progress = 13
