-- ===== src/Cfg/File.antt =====
-- src/cfg/file.c: the configuration file, how it is found, read, reloaded and written, and the watch of
-- its directory (`fd_wd_cfg_dir_create` and `fd_wd_cfg_dir_destroy` of src/fds.c). The file system, the
-- environment and libyaml are an argument. A path is taken to be shorter than PATH_MAX.
pub mod Laws
pub mod WriteBack
use text.Mathlib.Text.{◌==◌ as str_eq}
use way_displays.Prelude.{
  ℕ, Bool, true, false, ◌&&◌, not, Option, none, some, String, List, [], ◌∷◌, if◌then◌else◌,
}
use way_displays.Prelude.Text.{append}
use way_displays.Platform.{Platform}
use way_displays.Cfg.{Cfg}
use way_displays.Log.{Log, log_set_threshold}
use way_displays.Cfg.Init.{cfg_init}
use way_displays.Cfg.Defaults.{cfg_apply_defaults}
use way_displays.Cfg.Validate.{cfg_validate_fix}
use way_displays.Yaml.{Node, Scanner, Loaded, loaded}
use way_displays.Yaml.Document.{yaml_root_to_cfg}
use way_displays.Yaml.Marshal.{Printer, yaml_map_from_cfg}

-- What the outside answers. `root_etc` is set by the build.
pub record FileSystem (Real : Type 0) : Type 0 where
  pub fs_canonical_path : String → Option String
  pub readable : String → Bool
  pub xdg_config_home : Option String
  pub home : Option String
  pub root_etc : String
  pub dirname : String → String
  pub basename : String → String
  pub fs_mkdir_p : String → Bool
  -- To the path, the content, in the mode.
  pub fs_file_write : String → String → String → Bool
  pub inotify_add_watch : String → Bool
  -- The root of the document that libyaml loads from a file, if there is one.
  pub load : String → Option Node
  pub scanner : Scanner Real
  -- Where the struct of the mode of a display is placed.
  pub mode_place : String → ℕ
  pub printer : Printer Real
  -- The text that libyaml prints of a document.
  pub emit : Node → Option String

pub record CfgFile : Type 0 where
  pub dir_path : String
  pub file_path : String
  pub file_name : String
  pub file_path_resolved : String
  pub written : Bool

-- `memset(&g_cfg_file, 0, ...)`.
abbrev pub no_file : CfgFile
no_file = record {
  dir_path = "";
  file_path = "";
  file_name = "";
  file_path_resolved = "";
  written = false;
}

-- `g_cfg_file`, and the directory that is watched.
pub record Files : Type 0 where
  pub file : CfgFile
  pub watched : Option String

-- The end of `g_cfg_file_write`: it returns, or exits where the directory cannot be watched.
pub data FileOutcome : Type 0 where
  stays : Files → FileOutcome
  exits : FileOutcome

abbrev pub comment_yaml_schema : String
comment_yaml_schema =
    "# $schema: https://raw.githubusercontent.com/alex-courtis/way-displays/refs/heads/master/schema/cfg-2.0.0.yaml\n# man 5 way-displays\n"

-- An event of inotify: whether its mask has IN_CLOSE_WRITE, and its name, if it has one.
pub record FileEvent : Type 0 where
  pub close_write : Bool
  pub name : Option String

abbrev names_file : String → Option String → Bool
names_file file_name none = false
names_file file_name (some name) = str_eq file_name name

abbrev some_modified : String → List FileEvent → Bool
some_modified file_name [] = false
some_modified file_name (e ∷ es) =
    if e.close_write && names_file file_name e.name then true else some_modified file_name es

-- Whether the file is among those that were written.
unfoldable pub fd_cfg_file_modified : CfgFile → List FileEvent → Bool
fd_cfg_file_modified f es = if str_eq f.file_name "" then false else some_modified f.file_name es

module _ (pf : Platform) (fs : FileSystem pf.Real) where
  open pf use {lib, Real}
  open lib use {ss}
  open fs use {
    fs_canonical_path, readable, xdg_config_home, home, root_etc, dirname, basename, fs_mkdir_p,
    fs_file_write, inotify_add_watch,
  }

  unfoldable pub hydrate : String → String → CfgFile
  hydrate resolved_from path = record {
    dir_path = dirname path;
    file_path = path;
    file_name = basename path;
    file_path_resolved = resolved_from;
    written = false;
  }

  -- The file of the first candidate that has a canonical path.
  unfoldable pub resolve : List String → CfgFile × Bool
  unfolding hydrate
  resolve [] = (no_file, false)
  resolve (c ∷ cs) = elim (fs_canonical_path c) [
    | none ↦ resolve cs
    | some path ↦ (hydrate c path, true)
  ]

  abbrev user_candidates : Option String → List String
  user_candidates none = []
  user_candidates (some path) = if readable path then ss.add [] path else []

  abbrev home_candidates : Option String → Option String → List String → List String
  home_candidates (some xdg) h s = ss.add s (append xdg "/way-displays/cfg.yaml")
  home_candidates none (some h) s = ss.add s (append h "/.config/way-displays/cfg.yaml")
  home_candidates none none s = s

  unfoldable pub candidates_init : Option String → List String
  candidates_init user_path =
      ss.add
        (ss.add (home_candidates xdg_config_home home (user_candidates user_path))
          "/usr/local/etc/way-displays/cfg.yaml")
        (append root_etc "/way-displays/cfg.yaml")

  unfoldable pub write_content : CfgFile → String → Bool
  write_content f yaml =
      fs_file_write f.file_path comment_yaml_schema "w" && fs_file_write f.file_path yaml "a"

  unfoldable pub fd_wd_cfg_dir_create : Files → FileOutcome
  fd_wd_cfg_dir_create s =
      if str_eq s.file.dir_path ""
      then stays s
      else if inotify_add_watch s.file.dir_path
      then stays (record s { watched = some s.file.dir_path })
      else exits

  unfoldable pub fd_wd_cfg_dir_destroy : Files → Files
  fd_wd_cfg_dir_destroy s = record s { watched = none }

  -- The loop over the candidates, but the one that was resolved before.
  unfoldable pub write_alternatives : String → String → List String → FileOutcome
  unfolding hydrate write_content fd_wd_cfg_dir_create
  write_alternatives yaml resolved_from_prev [] = stays (record { file = no_file; watched = none })
  write_alternatives yaml resolved_from_prev (c ∷ cs) =
      let rest = write_alternatives yaml resolved_from_prev cs in
      let f = hydrate c c in
      let tried =
        if fs_mkdir_p f.dir_path && write_content f yaml
        then fd_wd_cfg_dir_create (record { file = f; watched = none })
        else rest in
      if str_eq resolved_from_prev c then rest else tried

  abbrev pub emitted : Option Node → Option String
  emitted none = none
  emitted (some n) = fs.emit n

  -- `yaml_marshal` of src/yaml/marshal.c, for a configuration.
  unfoldable pub yaml_marshal : Cfg Real → Option String
  unfolding yaml_map_from_cfg
  yaml_marshal cfg = emitted (yaml_map_from_cfg pf fs.printer (some cfg))

  -- The file that is in use is written where it can be; otherwise it is given up, and the first
  -- other candidate that can be written is used and watched.
  unfoldable pub g_cfg_file_write : List String → Cfg Real → Files → FileOutcome
  unfolding write_alternatives fd_wd_cfg_dir_destroy yaml_marshal
  g_cfg_file_write candidates cfg s = elim (yaml_marshal cfg) [
    | none ↦ stays (record s { file = record s.file { written = false } })
    | some yaml ↦
        if not (str_eq s.file.file_path "") && write_content s.file yaml
        then stays (record s { file = record s.file { written = true } })
        else write_alternatives yaml s.file.file_path_resolved candidates
  ]

  abbrev pub loaded_cfg : Loaded (Cfg Real) → Option (Cfg Real)
  loaded_cfg (loaded cfg) = some cfg
  loaded_cfg _ = none

  -- `yaml_unmarshal_file` of src/yaml/unmarshal.c, for a configuration, which is never undefined.
  unfoldable pub yaml_unmarshal_file : String → Option (Cfg Real)
  unfolding yaml_root_to_cfg
  yaml_unmarshal_file path =
      loaded_cfg (yaml_root_to_cfg pf fs.scanner fs.mode_place (fs.load path))

  abbrev or_init : Option (Cfg Real) → Cfg Real
  or_init none = cfg_init pf
  or_init (some cfg) = cfg

  -- The configuration that is read at the start, and the file.
  unfoldable pub g_cfg_file_init_read : List String → Cfg Real × CfgFile
  unfolding resolve yaml_unmarshal_file
  g_cfg_file_init_read candidates =
      let (f, resolved) = resolve candidates in
      let read = if resolved then or_init (yaml_unmarshal_file f.file_path) else cfg_init pf in
      (cfg_validate_fix (cfg_apply_defaults pf read), f)

  -- The threshold is set before the configuration is fixed, which leaves it as it is.
  abbrev pub reloaded : Log → Cfg Real → Option (Cfg Real) → Cfg Real × Log
  reloaded log cfg none = (cfg, log)
  reloaded log cfg (some read) =
      let cfg_loaded = cfg_apply_defaults pf read in
      (cfg_validate_fix cfg_loaded, log_set_threshold log cfg_loaded.log_threshold false)

  -- A file that cannot be read leaves the configuration as it is.
  unfoldable pub g_cfg_file_reload : CfgFile → Log → Cfg Real → Cfg Real × Log
  unfolding yaml_unmarshal_file
  g_cfg_file_reload f log cfg =
      if str_eq f.file_path ""
      then (cfg, log)
      else reloaded log cfg (yaml_unmarshal_file f.file_path)
