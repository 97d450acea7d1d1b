-- ===== src/Yaml/Valid.antt =====
-- The names of displays in a configuration that src/yaml has read.
use way_displays.Prelude.{
  if◌then◌else◌, ℕ, ◌≡◌, refl, Option, none, some, String, List, [], ◌∷◌, pick,
}
use way_displays.Enums.{CfgElement}
use way_displays.Enums.Values.{cfg_element_val, transform_val}
use way_displays.Platform.{Platform}
use way_displays.Mode.{Mode}
use way_displays.Cfg.{Cfg}
use way_displays.Cfg.Init.{cfg_init}
use way_displays.Yaml.{
  Pairs, Node, scalar, sequence, mapping, items, entries, Scanner, Context, no_context, loaded,
}
use way_displays.Yaml.Primitives.{
  yaml_valid_name_desc, yaml_scalar_to_string, yaml_scalar_to_enum, yaml_map_to_spmap,
}
use way_displays.Yaml.Modes.{
  put_new, put_valid, put_all_valid, read_scale, yaml_map_to_cfg_mode, yaml_map_into_cfg_modes,
  yaml_map_into_scales, yaml_map_into_transforms,
}
use way_displays.Yaml.Document.{
  scales_in, modes_in, transforms_in, disableds_in, element_in, key_in, pairs_in, yaml_map_to_cfg,
}
use way_displays.Yaml.Version1.{
  yaml_map_into_transforms_v1, yaml_map_into_cfg_modes_v1, yaml_map_into_scales_v1,
}
use way_displays.Yaml.Patterns.{
  into_col-Keeps, IsPattern, KeysValid, AllValid, empty-KeysValid, put_if_absent-KeysValid,
  empty-AllValid, seq-AllValid, item-KeysValid,
}
use way_displays.Yaml.DisabledPatterns.{
  DisabledsValid, disableds-valid, disableds_v1-valid, empty-DisabledsValid,
}

module _ (pf : Platform) (sc : Scanner pf.Real) (addr : String → ℕ) where
  open pf use {lib, Real}
  open lib use {sp, ss}

  put_new-KeysValid :
      {V : Type 0} (m : List (String × V)) (k : String) (o : Option V)
      → IsPattern pf k
      → KeysValid pf m
      → KeysValid pf (put_new pf sc m k o)
  put_new-KeysValid m k none p h = h
  put_new-KeysValid m k (some v) p h = put_if_absent-KeysValid pf m k v p h

  put_valid-KeysValid :
      {V : Type 0} (read : String → Option Node → Option V) (m : List (String × V))
      (es : List (String × Node))
      → KeysValid pf m
      → KeysValid pf (put_valid pf sc read m es)
  unfolding put_valid
  put_valid-KeysValid read m [] h = h
  put_valid-KeysValid read m ((k, n) ∷ es) h =
      put_valid-KeysValid read
        (if yaml_valid_name_desc pf k then put_new pf sc m k (read k (some n)) else m) es
        (pick (KeysValid pf) (yaml_valid_name_desc pf k) (put_new pf sc m k (read k (some n))) m
          (λ e. put_new-KeysValid m k (read k (some n)) e h) (λ e. h))

  all-KeysValid :
      {V : Type 0} (read : String → Option Node → Option V) (m : List (String × V))
      (o : Option (List (String × Node)))
      → KeysValid pf m
      → KeysValid pf (put_all_valid pf sc read m o)
  all-KeysValid read m none h = h
  all-KeysValid read m (some es) h = put_valid-KeysValid read m es h

  -- The names of displays in a configuration, those in the conditions included, are patterns.
  abbrev pub NamesValid : Cfg Real → Type 0
  NamesValid cfg =
      KeysValid pf cfg.scales
      × KeysValid pf cfg.modes
      × KeysValid pf cfg.transforms
      × DisabledsValid pf cfg.disableds
      × AllValid pf cfg.order_name_desc
      × AllValid pf cfg.adaptive_sync_off

  abbrev Keeps : Cfg Real × Context → Type 0
  Keeps c = NamesValid c.0

  scales-Keeps : (c : Cfg Real × Context) (n : Node) → Keeps c → Keeps (scales_in pf sc addr c n)
  unfolding yaml_map_into_scales yaml_map_into_scales_v1
  scales-Keeps (cfg, uc) (scalar s) h = h
  scales-Keeps (cfg, uc) (sequence ns) (s, m, t, d, o, v) = (
    into_col-Keeps (KeysValid pf) _ cfg.scales (items ns) (λ m n p. item-KeysValid pf _ m n p) s,
    m,
    t,
    d,
    o,
    v,
  )
  scales-Keeps (cfg, uc) (mapping ps) (s, m, t, d, o, v) = (
    all-KeysValid (λ key v. read_scale pf sc v) cfg.scales
        (yaml_map_to_spmap pf (some (mapping ps))) s,
    m,
    t,
    d,
    o,
    v,
  )

  modes-Keeps : (c : Cfg Real × Context) (n : Node) → Keeps c → Keeps (modes_in pf sc addr c n)
  unfolding yaml_map_into_cfg_modes yaml_map_into_cfg_modes_v1
  modes-Keeps (cfg, uc) (scalar s) h = h
  modes-Keeps (cfg, uc) (sequence ns) (s, m, t, d, o, v) = (
    s,
    into_col-Keeps (KeysValid pf) _ cfg.modes (items ns) (λ x n p. item-KeysValid pf _ x n p) m,
    t,
    d,
    o,
    v,
  )
  modes-Keeps (cfg, uc) (mapping ps) (s, m, t, d, o, v) = (
    s,
    all-KeysValid (λ key v. yaml_map_to_cfg_mode pf sc (addr key) v) cfg.modes
        (yaml_map_to_spmap pf (some (mapping ps))) m,
    t,
    d,
    o,
    v,
  )

  transforms-Keeps :
      (c : Cfg Real × Context) (n : Node) → Keeps c → Keeps (transforms_in pf sc addr c n)
  unfolding yaml_map_into_transforms yaml_map_into_transforms_v1
  transforms-Keeps (cfg, uc) (scalar s) h = h
  transforms-Keeps (cfg, uc) (sequence ns) (s, m, t, d, o, v) = (
    s,
    m,
    into_col-Keeps (KeysValid pf) _ cfg.transforms (items ns) (λ x n p. item-KeysValid pf _ x n p)
        t,
    d,
    o,
    v,
  )
  transforms-Keeps (cfg, uc) (mapping ps) (s, m, t, d, o, v) = (
    s,
    m,
    all-KeysValid (λ key v. yaml_scalar_to_enum transform_val v) cfg.transforms
        (yaml_map_to_spmap pf (some (mapping ps))) t,
    d,
    o,
    v,
  )

  disableds-Keeps :
      (c : Cfg Real × Context) (n : Node) → Keeps c → Keeps (disableds_in pf sc addr c n)
  disableds-Keeps (cfg, uc) (scalar s) h = h
  disableds-Keeps (cfg, uc) (sequence ns) (s, m, t, d, o, v) = (
    s,
    m,
    t,
    into_col-Keeps (DisabledsValid pf) _ cfg.disableds (items ns)
        (λ x n p. disableds_v1-valid pf x n p) d,
    o,
    v,
  )
  disableds-Keeps (cfg, uc) (mapping ps) (s, m, t, d, o, v) =
      (s, m, t, disableds-valid pf cfg.disableds (mapping ps) d, o, v)

  element-Keeps :
      (c : Cfg Real × Context) (e : Option CfgElement) (n : Node)
      → Keeps c
      → Keeps (element_in pf sc addr c e n)
  unfolding element_in
  element-Keeps (cfg, uc) (some CfgElement.order) n (s, m, t, d, o, v) =
      (s, m, t, d, seq-AllValid pf cfg.order_name_desc n o, v)
  element-Keeps (cfg, uc) (some CfgElement.vrr_off) n (s, m, t, d, o, v) =
      (s, m, t, d, o, seq-AllValid pf cfg.adaptive_sync_off n v)
  element-Keeps c (some CfgElement.scale) n h = scales-Keeps c n h
  element-Keeps c (some CfgElement.mode) n h = modes-Keeps c n h
  element-Keeps c (some CfgElement.transform) n h = transforms-Keeps c n h
  element-Keeps c (some CfgElement.disabled) n h = disableds-Keeps c n h
  element-Keeps (cfg, uc) _ n h = h

  key-Keeps :
      (c : Cfg Real × Context) (name : Option String) (n : Node)
      → Keeps c
      → Keeps (key_in pf sc addr c name n)
  key-Keeps c none n h = h
  key-Keeps c (some name) n h = element-Keeps c (cfg_element_val (some name)) n h

  pairs-Keeps :
      (c : Cfg Real × Context) (ps : List (Node × Node))
      → Keeps c
      → Keeps (pairs_in pf sc addr c ps)
  unfolding pairs_in
  pairs-Keeps c [] h = h
  pairs-Keeps c ((k, n) ∷ ps) h =
      pairs-Keeps (key_in pf sc addr c (yaml_scalar_to_string (some k)) n) ps
        (key-Keeps c (yaml_scalar_to_string (some k)) n h)

  init-NamesValid : NamesValid (cfg_init pf)
  unfolding cfg_init
  init-NamesValid = (
    empty-KeysValid pf ℕ,
    empty-KeysValid pf Mode,
    empty-KeysValid pf ℕ,
    empty-DisabledsValid pf,
    empty-AllValid pf,
    empty-AllValid pf,
  )

  -- Every map gives a configuration, in which every name of a display, in its elements and in the
  -- conditions of the displays that are disabled, is a plain name or a regular expression that
  -- compiles, also where the map is of version 1.
  pub map_to_cfg-NamesValid :
      (ps : Pairs)
      → (cfg : Cfg Real) × (uc : Context) × (yaml_map_to_cfg pf sc addr (mapping ps)
          ≡ loaded (cfg, uc))
        × NamesValid cfg
  unfolding yaml_map_to_cfg
  map_to_cfg-NamesValid ps =
      let c = pairs_in pf sc addr (cfg_init pf, no_context) (entries ps) in
      (c.0, c.1, refl, pairs-Keeps (cfg_init pf, no_context) (entries ps) init-NamesValid)
