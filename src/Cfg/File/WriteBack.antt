-- ===== src/Cfg/File/WriteBack.antt =====
-- A configuration that src/cfg/file.c writes and then reloads is the same.
use text.Mathlib.Text.{◌==◌ as str_eq}
use text.Mathlib.TextEquality.{eq_iff}
use way_displays.Prelude.{
  ◌≡◌, refl, sym, ap, ◌∙◌, ◌⊎◌, inl, inr, Bool, true, false, ◌&&◌, not, Option, none, some, String,
  List, [], ◌∷◌, Bool-cases, arith, subst, pick, if◌then◌else◌,
}
use way_displays.Prelude.Text.{append}
use way_displays.Platform.{Platform}
use way_displays.Cfg.{Cfg}
use way_displays.Log.{Log, log_set_threshold}
use way_displays.Cfg.Defaults.{cfg_apply_defaults}
use way_displays.Cfg.Validate.{cfg_validate_fix, IsValid}
use way_displays.Cfg.Valid.{IsValid-validate_fix}
use way_displays.Cfg.File.{
  FileSystem, CfgFile, Files, FileOutcome, stays, exits, hydrate, write_content,
  fd_wd_cfg_dir_create, write_alternatives, yaml_marshal, g_cfg_file_write, g_cfg_file_reload,
  reloaded, loaded_cfg, emitted, comment_yaml_schema,
}
use way_displays.Yaml.{Node}
use way_displays.Yaml.Marshal.{yaml_map_from_cfg}
use way_displays.Yaml.Document.{yaml_root_to_cfg}
use way_displays.Yaml.Writable.{Writable}
use way_displays.Yaml.Restored.{restored, cfg_round_trip}

and_right : (a b : Bool) → (a && b) ≡ true → b ≡ true
and_right a b e = ground arith

module _ (pf : Platform) (fs : FileSystem pf.Real) where
  open pf use {Real}

  -- The file that is in use, if one is, has been written.
  abbrev InUse : String → Files → Type 0
  InUse yaml s = (s.file.file_path ≡ "") ⊎ (write_content pf fs s.file yaml ≡ true)

  abbrev Ends : String → FileOutcome → Type 0
  Ends yaml (stays s) = InUse yaml s
  Ends yaml exits = Unit

  created-Ends :
      (yaml : String) (f : CfgFile)
      → write_content pf fs f yaml ≡ true
      → Ends yaml (fd_wd_cfg_dir_create pf fs (record { file = f; watched = none }))
  unfolding fd_wd_cfg_dir_create
  created-Ends yaml f e =
      pick (Ends yaml) (str_eq f.dir_path "") _ _ (λ q. inr e)
        (λ q. pick (Ends yaml) (fs.inotify_add_watch f.dir_path) _ _ (λ r. inr e) (λ r. tt))

  alternatives-Ends :
      (yaml prev : String) (cs : List String) → Ends yaml (write_alternatives pf fs yaml prev cs)
  unfolding write_alternatives
  alternatives-Ends yaml prev [] = inl refl
  alternatives-Ends yaml prev (c ∷ cs) =
      let rest = alternatives-Ends yaml prev cs in
      let f = hydrate pf fs c c in
      pick (Ends yaml) (str_eq prev c) _ _ (λ q. rest)
        (λ q.
          pick (Ends yaml) (fs.fs_mkdir_p f.dir_path && write_content pf fs f yaml) _ _
            (λ r.
              created-Ends yaml f
                (and_right (fs.fs_mkdir_p f.dir_path) (write_content pf fs f yaml) r))
            (λ r. rest))

  write-Ends :
      (candidates : List String) (cfg : Cfg Real) (s : Files) (yaml : String)
      → yaml_marshal pf fs cfg ≡ some yaml
      → Ends yaml (g_cfg_file_write pf fs candidates cfg s)
  unfolding g_cfg_file_write
  write-Ends candidates cfg s yaml e =
      subst
        (λ o. Ends yaml (elim o [
          | none ↦ stays (record s { file = record s.file { written = false } })
          | some y ↦
              if not (str_eq s.file.file_path "") && write_content pf fs s.file y
              then stays (record s { file = record s.file { written = true } })
              else write_alternatives pf fs y s.file.file_path_resolved candidates
        ]))
        (sym e)
        (pick (Ends yaml) (not (str_eq s.file.file_path "") && write_content pf fs s.file yaml) _ _
          (λ q.
            inr (and_right (not (str_eq s.file.file_path "")) (write_content pf fs s.file yaml) q))
          (λ q. alternatives-Ends yaml s.file.file_path_resolved candidates))

  -- The file system afterwards, where `load` is what libyaml then loads.
  abbrev pub after : (String → Option Node) → FileSystem Real
  after load = record fs { load = load }

  reload_lem :
      (log : Log) (cfg old : Cfg Real) (f : CfgFile) (load : String → Option Node)
      → Writable pf fs.scanner fs.printer fs.mode_place cfg
      → IsValid (restored pf fs.scanner fs.printer fs.mode_place cfg)
      → cfg_apply_defaults pf (restored pf fs.scanner fs.printer fs.mode_place cfg)
        ≡ restored pf fs.scanner fs.printer fs.mode_place cfg
      → str_eq f.file_path "" ≡ false
      → load f.file_path ≡ yaml_map_from_cfg pf fs.printer (some cfg)
      → g_cfg_file_reload pf (after load) f log old ≡ (
        restored pf fs.scanner fs.printer fs.mode_place cfg,
        log_set_threshold log cfg.log_threshold false,
      )
  unfolding g_cfg_file_reload
  reload_lem log cfg old f load w v d e l =
      let same = restored pf fs.scanner fs.printer fs.mode_place cfg in
      (λ i.
        if e i
        then (old, log)
        else reloaded pf (after load) log old
            (loaded_cfg pf (after load) (yaml_root_to_cfg pf fs.scanner fs.mode_place (l i))))
      ∙ ap (λ r. reloaded pf (after load) log old (loaded_cfg pf (after load) r))
          (cfg_round_trip pf fs.scanner fs.printer fs.mode_place cfg w)
      ∙ ap {B = Cfg Real × Log}
          (λ (c : Cfg Real). (cfg_validate_fix c, log_set_threshold log c.log_threshold false)) d
      ∙ ap {B = Cfg Real × Log}
          (λ (c : Cfg Real). (c, log_set_threshold log cfg.log_threshold false))
          (IsValid-validate_fix same v)

  -- What is on the disk, and what libyaml makes of a text.
  abbrev pub load_from : (String → Option String) → (String → Option Node) → String → Option Node
  load_from content parse path = elim (content path) [ none ↦ none | some t ↦ parse t ]

  -- A file that is written has the two texts, one behind the other, and libyaml reads the document
  -- of the configuration as it has printed it, also behind the comment.
  pub record IsStored (cfg : Cfg Real) (yaml : String) (f : CfgFile)
      (content : String → Option String) (parse : String → Option Node) : Type 0 where
    pub content-write :
        write_content pf fs f yaml ≡ true
        → content f.file_path ≡ some (append comment_yaml_schema yaml)
    pub parse-emit :
        (n : Node)
        → yaml_map_from_cfg pf fs.printer (some cfg) ≡ some n
        → fs.emit n ≡ some yaml
        → parse (append comment_yaml_schema yaml) ≡ some n

  parse-emitted :
      (o : Option Node) (yaml : String) (read : Option Node)
      → ((n : Node) → o ≡ some n → fs.emit n ≡ some yaml → read ≡ some n)
      → emitted pf fs o ≡ some yaml
      → read ≡ o
  parse-emitted none yaml read h e = cc
  parse-emitted (some n) yaml read h e = h n refl e

  -- After a valid configuration that can be written and has its defaults was written, no file is in use,
  -- or a reload of the file in use gives the same configuration, whatever was active, and sets its log threshold; only that no display
  -- is disabled is noted where none is. The disk is to hold what was written, and libyaml to read what it
  -- printed.
  pub written_reloaded :
      (candidates : List String) (log : Log) (cfg old : Cfg Real) (s s' : Files) (yaml : String)
      (content : String → Option String) (parse : String → Option Node)
      → yaml_marshal pf fs cfg ≡ some yaml
      → g_cfg_file_write pf fs candidates cfg s ≡ stays s'
      → IsStored cfg yaml s'.file content parse
      → Writable pf fs.scanner fs.printer fs.mode_place cfg
      → IsValid cfg
      → cfg_apply_defaults pf (restored pf fs.scanner fs.printer fs.mode_place cfg)
        ≡ restored pf fs.scanner fs.printer fs.mode_place cfg
      → (s'.file.file_path ≡ "")
        ⊎ (g_cfg_file_reload pf (after (load_from content parse)) s'.file log old ≡ (
          restored pf fs.scanner fs.printer fs.mode_place cfg,
          log_set_threshold log cfg.log_threshold false,
        ))
  unfolding yaml_marshal
  written_reloaded candidates log cfg old s s' yaml content parse m e k w v d =
      elim (subst (Ends yaml) e (write-Ends candidates cfg s yaml m)) [
        | inl q ↦ inl q
        | inr q ↦ elim (Bool-cases (str_eq s'.file.file_path "")) [
          | inl r ↦ inl ((eq_iff s'.file.file_path "").0 r)
          | inr r ↦ inr (
              reload_lem log cfg old s'.file (load_from content parse) w
                (record { aligned = v.aligned; dpi_above = v.dpi_above; usable = v.usable }) d r
                ((λ i. elim (k.content-write q i) [ none ↦ none | some t ↦ parse t ])
                  ∙ parse-emitted (yaml_map_from_cfg pf fs.printer (some cfg)) yaml
                      (parse (append comment_yaml_schema yaml)) k.parse-emit m))
        ]
      ]
