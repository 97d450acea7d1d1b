-- ===== src/Head.antt =====
-- inc/head.h: a head, which is a display as the compositor's output management sees it, and what
-- is currently set and desired of it. `modes` and `modes_failed` map the protocol's mode objects to
-- modes. A pointer that may be NULL is an `Option` of an address.
pub mod Matching
pub mod Changes
pub mod FindMode
pub mod FindModeLaws
pub mod Modes
pub mod ModesLaws
pub mod Scale
pub mod ScaleLaws
pub mod Override
use way_displays.Prelude.{ℕ, ℤ, pos, Bool, false, Option, none, String, List, []}
use way_displays.Enums.{ManualOverride}
use way_displays.Mode.{Mode}

-- `enum zwlr_output_head_v1_adaptive_sync_state` of the protocol.
pub data AdaptiveSync : Type 0 where
  vrr_disabled vrr_enabled : AdaptiveSync

-- `transform` is the protocol's number, 0 to 7.
pub record HeadState : Type 0 where
  pub zmode : Option ℕ
  pub scale : ℤ
  pub enabled : Bool
  pub x : ℤ
  pub y : ℤ
  pub transform : ℕ
  pub adaptive_sync : AdaptiveSync

-- `addr` is the address of the struct, by which pointers to heads are compared.
pub record Head : Type 0 where
  pub addr : ℕ
  pub zconfig : Option ℕ
  pub modes : List (ℕ × Mode)
  pub modes_failed : List (ℕ × Mode)
  pub zmode_pref : Option ℕ
  pub name : Option String
  pub description : Option String
  pub width_mm : ℤ
  pub height_mm : ℤ
  pub make : Option String
  pub model : Option String
  pub serial_number : Option String
  pub scaled_width : ℤ
  pub scaled_height : ℤ
  pub cur : HeadState
  pub des : HeadState
  pub overrided_enabled : ManualOverride
  pub disabled_condition_desc : Option String
  pub reapply_required : Bool
  pub adaptive_sync_failed : Bool
  pub warned_no_preferred : Bool
  pub warned_no_mode : Bool

-- All bits zero, as `calloc` leaves it.
abbrev pub state_zero : HeadState
state_zero = record {
  zmode = none;
  scale = pos 0;
  enabled = false;
  x = pos 0;
  y = pos 0;
  transform = 0;
  adaptive_sync = vrr_disabled;
}

-- `head_init`: the struct that `calloc` placed at `addr`.
unfoldable pub head_init : ℕ → Head
head_init addr = record {
  addr = addr;
  zconfig = none;
  modes = [];
  modes_failed = [];
  zmode_pref = none;
  name = none;
  description = none;
  width_mm = pos 0;
  height_mm = pos 0;
  make = none;
  model = none;
  serial_number = none;
  scaled_width = pos 0;
  scaled_height = pos 0;
  cur = state_zero;
  des = state_zero;
  overrided_enabled = ManualOverride.no_override;
  disabled_condition_desc = none;
  reapply_required = false;
  adaptive_sync_failed = false;
  warned_no_preferred = false;
  warned_no_mode = false;
}
