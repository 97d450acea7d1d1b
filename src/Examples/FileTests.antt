-- ===== src/Examples/FileTests.antt =====
-- The theorem on configurations that are written, for one with a set, a mode, a scale, a transform and a
-- display that is disabled while another is plugged and the lid is closed. The numbers that it has are
-- printed with three decimal places where they are not whole.
use Prim.Native.Nat.{ℕ}
use text.Mathlib.Text.{◌==◌ as str_eq}
use way_displays.Prelude.{
  ◌≡◌, refl, inl, inr, ℤ, pos, negsuc, eqb_ℤ, div_ℤ, pos_part, Option, none, some, String, List, [],
  ◌∷◌, first,
}
use way_displays.Prelude.Text.{strlen}
use way_displays.Enums.{ConditionLid, IpcCommand, LogThreshold}
use way_displays.Mode.{Mode, mode_init}
use way_displays.Log.{log_init, log_set_threshold}
use way_displays.Cfg.{Cfg, CfgDisabled}
use way_displays.Collections.{key_of, value_of}
use way_displays.Yaml.{Scanner, loaded}
use way_displays.Enums.Names.{_name}
use way_displays.Yaml.Primitives.{yaml_valid_name_desc, yaml_scalar_to_float, yaml_scalar_to_string}
use way_displays.Yaml.Document.{
  yaml_scalar_to_scale_round_to, scale_round_to_val, yaml_root_to_cfg, yaml_root_to_ipc_request,
}
use way_displays.Yaml.Marshal.{Printer, yaml_map_from_cfg, yaml_root_from_ipc_request}
use way_displays.Yaml.RoundTrip.{request_for}
use way_displays.Yaml.ModeBack.{explicit}
use way_displays.Yaml.Writable.{Writable}
use way_displays.Yaml.Restored.{restored, restored_if, cfg_round_trip, request_restored}
use way_displays.Prelude.{arith, true, false, ◌⊎◌}
use way_displays.Prelude.Text.{append}
use way_displays.Enums.{OnOff, ScaleRoundStrategy}
use way_displays.Yaml.{Node}
use way_displays.Cfg.Defaults.{cfg_apply_defaults}
use way_displays.Cfg.Validate.{IsValid, row_middle}
use way_displays.Cfg.File.{
  FileSystem, CfgFile, Files, g_cfg_file_write, g_cfg_file_reload, comment_yaml_schema,
}
use way_displays.Cfg.File.WriteBack.{after, load_from, written_reloaded}
use way_displays.Examples.Concrete.{desk, cfg}

-- The thousandths of a number, and its text.
abbrev floats : List (String × ℤ)
floats = ("0.125", pos 125) ∷ ("1", pos 1000) ∷ ("1.5", pos 1500) ∷ ("3", pos 3000) ∷ []

abbrev ints : List (String × ℤ)
ints = ("96", pos 96) ∷ ("1080", pos 1080) ∷ ("1920", pos 1920) ∷ []

abbrev scanned : List (String × ℤ) → String → Option ℤ
scanned table s = value_of (first (λ e. str_eq e.0 s) table)

abbrev or_zero : Option String → String
or_zero none = "0"
or_zero (some s) = s

abbrev shown : List (String × ℤ) → ℤ → String
shown table z = or_zero (key_of (first (λ e. eqb_ℤ e.1 z) table))

abbrev scanner : Scanner ℤ
scanner = record {
  scan_int = scanned ints;
  scan_float = scanned floats;
  round = λ r. r;
  size_of = λ r. pos_part (div_ℤ r 1000);
  lround = λ r. div_ℤ r 1000;
}

abbrev printer : Printer ℤ
printer = record { show_int = shown ints; show_float = shown floats }

abbrev addr : String → ℕ
addr s = strlen s

-- 1920 by 1080, at any refresh.
abbrev any_refresh : Mode
any_refresh = record (mode_init 4) { width = pos 1920; height = pos 1080; refresh_mhz = negsuc 0 }

abbrev closed : CfgDisabled
closed = record {
  conditions =
      record { plugged = "DP-1" ∷ []; unplugged = []; lid = some ConditionLid.lid_closed } ∷ [];
}

abbrev written : Cfg ℤ
written = record cfg {
  modes = ("DP-1", any_refresh) ∷ [];
  transforms = ("DP-1", 1) ∷ [];
  disableds = ("eDP-1", closed) ∷ [];
  scale_round_strategy = some ScaleRoundStrategy.nearest;
  callback_cmd = some "true";
  laptop_lid_monitor = some OnOff.on;
}

written-Writable : Writable desk scanner printer addr written
unfolding yaml_valid_name_desc _name yaml_scalar_to_scale_round_to scale_round_to_val
    yaml_scalar_to_float yaml_scalar_to_string mode_init strlen
    way_displays.Cfg.Equal.condition_equal way_displays.Prelude.◌*ℤ◌
written-Writable = record {
  order = ((refl, (refl, tt)), ((refl, tt), (tt, tt)));
  vrr_off = ((refl, tt), (tt, tt));
  round_to = inr ("0.125", refl, refl);
  dpi = inr (refl, refl);
  low = inr (refl, refl);
  high = inr (refl, refl);
  scale_names = ((refl, tt), (tt, tt));
  scale_values = ((refl, refl), tt);
  mode_names = ((refl, tt), (tt, tt));
  mode_values = (explicit (pos 1920) (pos 1080) (negsuc 0) refl refl (inl refl), tt);
  transform_names = ((refl, tt), (tt, tt));
  transform_values = (inl refl, tt);
  disabled_values =
      (((refl, tt), (tt, tt)), ((((((refl, tt), (tt, tt)), (tt, tt), refl), tt), (refl, tt)), tt));
}

cfg_round_trip_example :
    yaml_root_to_cfg desk scanner addr (yaml_map_from_cfg desk printer (some written))
    ≡ loaded (restored desk scanner printer addr written)
cfg_round_trip_example = cfg_round_trip desk scanner printer addr written written-Writable

request_restored_example :
    yaml_root_to_ipc_request desk scanner addr (
      yaml_root_from_ipc_request desk printer
        (request_for IpcCommand.cfg_set (some LogThreshold.warning) (some written)))
    ≡ loaded (
        request_for IpcCommand.cfg_set
          (some LogThreshold.warning)
          (restored_if desk scanner printer addr (some written)))
request_restored_example =
    request_restored desk scanner printer addr IpcCommand.cfg_set (some LogThreshold.warning)
      (some written) written-Writable

-- A file system in which everything can be written, and whose one document is that of the configuration.
abbrev disk : FileSystem ℤ
disk = record {
  fs_canonical_path = λ s. some s;
  readable = λ s. true;
  xdg_config_home = some "/home/u/.config";
  home = none;
  root_etc = "/etc";
  dirname = λ s. "/home/u/.config/way-displays";
  basename = λ s. "cfg.yaml";
  fs_mkdir_p = λ s. true;
  fs_file_write = λ path content mode. true;
  inotify_add_watch = λ s. true;
  load = λ s. none;
  scanner = scanner;
  mode_place = addr;
  printer = printer;
  emit = λ n. some "ARRANGE: ROW\n";
}

abbrev home_file : CfgFile
home_file = record {
  dir_path = "/home/u/.config/way-displays";
  file_path = "/home/u/.config/way-displays/cfg.yaml";
  file_name = "cfg.yaml";
  file_path_resolved = "/home/u/.config/way-displays/cfg.yaml";
  written = false;
}

abbrev written_file : CfgFile
written_file = record home_file { written = true }

abbrev in_use : Files
in_use = record { file = home_file; watched = some "/home/u/.config/way-displays" }

written-IsValid : IsValid written
unfolding mode_init
written-IsValid = record {
  aligned = row_middle;
  dpi_above = omega arith;
  usable = (
    record {
      width_ok = inr (omega arith);
      height_ok = inr (omega arith);
      refresh_ok = inl refl;
      resolution_ok = λ e f. omega arith;
    },
    tt,
  );
}

abbrev document : Option Node
document = yaml_map_from_cfg desk printer (some written)

abbrev file_text : String
file_text = append comment_yaml_schema "ARRANGE: ROW\n"

written_reloaded_example :
    (written_file.file_path ≡ "")
    ⊎ (g_cfg_file_reload desk
          (after desk disk (load_from desk disk (λ p. some file_text) (λ t. document)))
          written_file
          log_init
          cfg
        ≡ (
          restored desk scanner printer addr written,
          log_set_threshold log_init written.log_threshold false,
        ))
unfolding g_cfg_file_write cfg_apply_defaults
written_reloaded_example =
    written_reloaded desk disk [] log_init written cfg in_use
      (record in_use { file = written_file }) "ARRANGE: ROW\n" (λ p. some file_text) (λ t. document)
      refl refl (record { content-write = λ e. refl; parse-emit = λ n e f. e }) written-Writable
      written-IsValid refl
