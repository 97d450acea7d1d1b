-- ===== src/Cfg.antt =====
-- inc/cfg/cfg.h, condition.h and disabled.h: the configuration. A scalar that C has as 0 when it is
-- not set is an `Option`; `Real` stands for float.
pub mod Equal
pub mod Merge
pub mod Validate
pub mod Valid
pub mod Defaults
pub mod Init
pub mod LidClosed
pub mod Migrate
pub mod Warn
pub mod File
pub mod Condition
pub mod Disabled
pub mod Clashes
use way_displays.Prelude.{ℕ, ℤ, Bool, Option, String, List}
use way_displays.Enums.{Arrange, Align, OnOff, ConditionLid, ScaleRoundStrategy, LogThreshold}
use way_displays.Mode.{Mode}

pub record CfgCondition : Type 0 where
  pub plugged : List String
  pub unplugged : List String
  pub lid : Option ConditionLid

pub record CfgDisabled : Type 0 where
  pub conditions : List CfgCondition

pub record Cfg (Real : Type 0) : Type 0 where
  pub arrange : Option Arrange
  pub align : Option Align
  pub order_name_desc : List String
  pub scaling : Option OnOff
  pub scale_round_strategy : Option ScaleRoundStrategy
  pub scale_round_to : ℕ
  pub auto_scale : Option OnOff
  pub auto_scale_dpi : ℤ
  pub auto_scale_min : Real
  pub auto_scale_max : Real
  pub scales : List (String × ℕ)
  pub modes : List (String × Mode)
  pub transforms : List (String × ℕ)
  pub adaptive_sync_off : List String
  pub callback_cmd : Option String
  pub laptop_lid_monitor : Option OnOff
  pub log_threshold : Option LogThreshold
  pub disableds : List (String × CfgDisabled)
  pub disableds_empty : Bool
