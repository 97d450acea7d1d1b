-- ===== src/Cfg/Init.antt =====
-- `cfg_init` of src/cfg/cfg.c: all that `calloc` leaves, and empty containers.
use way_displays.Prelude.{pos, false, none, []}
use way_displays.Platform.{Platform}
use way_displays.Cfg.{Cfg}

module _ (pf : Platform) where
  open pf use {Real, of_int}

  unfoldable pub cfg_init : Cfg Real
  cfg_init = record {
    arrange = none;
    align = none;
    order_name_desc = [];
    scaling = none;
    scale_round_strategy = none;
    scale_round_to = 0;
    auto_scale = none;
    auto_scale_dpi = pos 0;
    auto_scale_min = of_int (pos 0);
    auto_scale_max = of_int (pos 0);
    scales = [];
    modes = [];
    transforms = [];
    adaptive_sync_off = [];
    callback_cmd = none;
    laptop_lid_monitor = none;
    log_threshold = none;
    disableds = [];
    disableds_empty = false;
  }
