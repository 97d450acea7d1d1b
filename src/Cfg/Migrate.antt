-- ===== src/Cfg/Migrate.antt =====
-- `cfg_migrate_v1` of src/cfg/cfg.c: what the migration of a configuration of version 1 adds to it. The
-- messages that it logs are not modelled.
use way_displays.Prelude.{Option, none, some, String}
use way_displays.Prelude.Text.{append}
use way_displays.Platform.{Platform}
use way_displays.Cfg.{Cfg}
use way_displays.Cfg.Defaults.{cfg_disabled_add_lid_condition, laptop_name_desc_default}

-- A prefix becomes a regular expression.
abbrev pub migrated_name_desc : Option String → String
migrated_name_desc (some prefix) = append "!^" prefix
migrated_name_desc none = laptop_name_desc_default

module _ (pf : Platform) where
  open pf use {Real}

  -- A lid closed condition is always added.
  unfoldable pub cfg_migrate_v1 : Cfg Real → Option String → Cfg Real
  unfolding cfg_disabled_add_lid_condition
  cfg_migrate_v1 cfg v1_laptop_display_prefix = record cfg {
    disableds =
        cfg_disabled_add_lid_condition pf cfg.disableds
          (some (migrated_name_desc v1_laptop_display_prefix));
  }
