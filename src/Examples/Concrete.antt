-- ===== src/Examples/Concrete.antt =====
-- A platform with numbers of three decimal places for floating point, and a laptop with its panel and a
-- monitor.
use text.Mathlib.Text.{◌==◌ as str_eq}
use way_displays.Prelude.{
  ℕ, zero, suc, ◌*◌, ℤ, pos, negsuc, ◌+ℤ◌, ◌*ℤ◌, ltb_ℤ, eqb_ℤ, sub_ℕ, div_ℤ, ceil_div, refl, Bool,
  true, false, Option, none, some, String, List, [], ◌∷◌,
}
use way_displays.Platform.{Platform}
use way_displays.Mode.{Mode}
use way_displays.Enums.{ManualOverride, OnOff, LogThreshold, Arrange, Align, DisplState, CfgElement}
use way_displays.Cfg.{Cfg}
use way_displays.Head.{Head, HeadState, vrr_enabled}
use way_displays.Displ.{Displ}
use way_displays.World.{World}
use way_displays.Examples.Containers.{containers}

abbrev times : ℤ → ℕ → ℤ
times (pos n) k = pos (n * k)
times (negsuc n) k = sub_ℕ 0 (suc n * k)

abbrev divide : ℤ → ℤ → ℤ
divide a (pos zero) = pos 0
divide a (pos (suc n)) = div_ℤ (times a 1000) (suc n)
divide a (negsuc n) = div_ℤ (a *ℤ negsuc 999) (suc n)

abbrev both : Option String → Option String → Bool
both none none = true
both (some a) (some b) = str_eq a b
both _ _ = false

abbrev pub desk : Platform
desk = record {
  lib = containers;
  regcomp = λ s. some (λ t. str_eq s t);
  Real = ℤ;
  of_int = λ n. times n 1000;
  add = ◌+ℤ◌;
  mul = λ a b. div_ℤ (a *ℤ b) 1000;
  div = divide;
  lt = ltb_ℤ;
  eqb = eqb_ℤ;
  ceil = λ a. times (ceil_div a 1000) 1000;
  trunc = λ a. div_ℤ a 1000;
  wl_fixed_from_double = λ a. div_ℤ (times a 256) 1000;
  wl_fixed_to_double = λ n. div_ℤ (times n 1000) 256;
  out_of_range = negsuc 2147483647;
  head_configuration = λ z. z;
  equal_strcmp = both;
  wl_fixed-one = refl;
}

abbrev pub mode_of : ℕ → ℕ → ℕ → ℕ → Mode
mode_of addr w h mhz = record {
  addr = addr;
  width = pos w;
  height = pos h;
  refresh_mhz = pos mhz;
  max = false;
  max_preferred_refresh = false;
  warned_no_mode = false;
}

abbrev pub uhd_60 : Mode
uhd_60 = mode_of 101 3840 2160 59997

abbrev pub fhd_144 : Mode
fhd_144 = mode_of 102 1920 1080 144001

abbrev pub fhd_60 : Mode
fhd_60 = mode_of 103 1920 1080 60000

abbrev pub monitor_modes : List (ℕ × Mode)
monitor_modes = (11, fhd_60) ∷ (12, uhd_60) ∷ (13, fhd_144) ∷ []

-- Any refresh of 1920 by 1080.
abbrev pub fhd : Mode
fhd = record fhd_60 { refresh_mhz = negsuc 0 }

abbrev pub state_of : ℕ → ℤ → HeadState
state_of zmode x = record {
  zmode = some zmode;
  scale = pos 256;
  enabled = true;
  x = x;
  y = pos 0;
  transform = 0;
  adaptive_sync = vrr_enabled;
}

abbrev pub monitor : Head
monitor = record {
  addr = 7;
  zconfig = none;
  modes = monitor_modes;
  modes_failed = [];
  zmode_pref = some 12;
  name = some "DP-1";
  description = some "Monitor Maker 27";
  width_mm = pos 600;
  height_mm = pos 340;
  make = none;
  model = none;
  serial_number = none;
  scaled_width = pos 1920;
  scaled_height = pos 1080;
  cur = state_of 11 (pos 0);
  des = state_of 13 (pos 0);
  overrided_enabled = ManualOverride.no_override;
  disabled_condition_desc = none;
  reapply_required = false;
  adaptive_sync_failed = false;
  warned_no_preferred = false;
  warned_no_mode = false;
}

abbrev pub panel : Head
panel = record monitor {
  addr = 8;
  name = some "eDP-1";
  description = none;
  modes = (21, fhd_60) ∷ [];
  zmode_pref = none;
  cur = state_of 21 (pos 0);
  des = state_of 21 (pos 1920);
  scaled_width = pos 1280;
  scaled_height = pos 720;
}

abbrev pub cfg : Cfg ℤ
cfg = record {
  arrange = some Arrange.row;
  align = some Align.middle;
  order_name_desc = "eDP-1" ∷ "DP" ∷ [];
  scaling = some OnOff.on;
  scale_round_strategy = none;
  scale_round_to = 8;
  auto_scale = some OnOff.on;
  auto_scale_dpi = pos 96;
  auto_scale_min = pos 1000;
  auto_scale_max = pos 3000;
  scales = ("DP-1", 1500) ∷ [];
  modes = ("DP-1", fhd) ∷ [];
  transforms = [];
  adaptive_sync_off = "eDP-1" ∷ [];
  callback_cmd = none;
  laptop_lid_monitor = none;
  log_threshold = some LogThreshold.info;
  disableds = [];
  disableds_empty = false;
}

abbrev pub displ : Displ
displ = record {
  heads = (1, monitor) ∷ (2, panel) ∷ [];
  heads_arrived = [];
  heads_departed = [];
  zwlr_output_manager_serial = 40;
  state = DisplState.failed;
  delta = record { element = some CfgElement.mode; head = some 7; zmode = some 13 };
}

abbrev pub world : World ℤ
world = record {
  cfg = cfg;
  lid = none;
  displ = displ;
  cancellation_retries = 2;
  requests = [];
  messages = [];
}
