-- ===== src/Cfg/LidClosed.antt =====
-- The defaults of src/cfg/cfg.c, as src/cfg/disabled.c and src/cfg/condition.c apply them: the panel of a
-- laptop whose lid is closed.
use way_displays.Prelude.{ℕ, Bool, false, Option, none, some, String, List}
use way_displays.Platform.{Platform}
use way_displays.Cfg.{Cfg, CfgDisabled}
use way_displays.Cfg.Disabled.{first_disabled}
use way_displays.Head.{Head}
use way_displays.Lid.{Lid}

abbrev pub is_closed : Option Lid → Bool
is_closed none = false
is_closed (some lid) = lid.closed

module _ (pf : Platform) (heads : List (ℕ × Head)) (lid : Option Lid) where
  open pf use {lib, Real}
  open lib use {sp, ps}

  abbrev applied : List (String × CfgDisabled) → Bool
  applied es = (first_disabled pf heads lid false es).applies
