-- ===== src/Cfg/File/Laws.antt =====
-- What src/cfg/file.c reads is valid.
use text.Mathlib.Text.{◌==◌ as str_eq}
use way_displays.Prelude.{Option, none, some, String, List, pick}
use way_displays.Platform.{Platform}
use way_displays.Cfg.{Cfg}
use way_displays.Log.{Log}
use way_displays.Cfg.Defaults.{cfg_apply_defaults}
use way_displays.Cfg.Validate.{IsValid}
use way_displays.Cfg.Valid.{validate_fix-IsValid}
use way_displays.Cfg.File.{
  yaml_unmarshal_file, FileSystem, CfgFile, g_cfg_file_init_read, g_cfg_file_reload, reloaded,
}

module _ (pf : Platform) (fs : FileSystem pf.Real) where
  open pf use {Real}

  -- The configuration that the daemon starts with is valid.
  pub init_read-IsValid :
      (candidates : List String) → IsValid (g_cfg_file_init_read pf fs candidates).0
  unfolding g_cfg_file_init_read
  init_read-IsValid candidates = validate_fix-IsValid (cfg_apply_defaults pf _)

  reloaded-IsValid :
      (log : Log) (cfg : Cfg Real) (loaded : Option (Cfg Real))
      → IsValid cfg
      → IsValid (reloaded pf fs log cfg loaded).0
  reloaded-IsValid log cfg none v = v
  reloaded-IsValid log cfg (some loaded) v = validate_fix-IsValid (cfg_apply_defaults pf loaded)

  pub reload-IsValid :
      (f : CfgFile) (log : Log) (cfg : Cfg Real)
      → IsValid cfg
      → IsValid (g_cfg_file_reload pf fs f log cfg).0
  unfolding g_cfg_file_reload
  reload-IsValid f log cfg v =
      pick (λ (r : Cfg Real × Log). IsValid r.0) (str_eq f.file_path "") _ _ (λ e. v)
        (λ e. reloaded-IsValid log cfg (yaml_unmarshal_file pf fs f.file_path) v)
