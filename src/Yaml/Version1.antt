-- ===== src/Yaml/Version1.antt =====
-- src/yaml/unmarshal-types-v1.c: the sequences of version 1, whose items name their display. That they
-- are there is noted by the caller, as every one of these functions does first of all.
use way_displays.Prelude.{ℕ, zero, suc, Option, none, some, String, List}
use way_displays.Enums.Values.{transform_val}
use way_displays.Platform.{Platform}
use way_displays.Mode.{Mode, mode_init}
use way_displays.Cfg.{CfgDisabled}
use way_displays.Args.Element.{cfg_disabled_init}
use way_displays.Yaml.{Node, scalar, sequence, mapping, Scanner, Context}
use way_displays.Yaml.Primitives.{
  ◌>>=◌, yaml_scalar_to_string, yaml_scalar_to_enum, yaml_scalar_to_name_desc, yaml_seq_into_col,
  yaml_map_to_spmap,
}
use way_displays.Yaml.Modes.{mode_fields, read_scale}
use way_displays.Yaml.Conditions.{yaml_map_into_conditions}

-- `strncpy` into an array of 16.
abbrev pub truncated : ℕ → String → String
truncated zero s = String.[]
truncated (suc n) String.[] = String.[]
truncated (suc n) (String.◌∷◌ c s) = String.◌∷◌ c (truncated n s)

abbrev pub with_prefix : Context → Option String → Context
with_prefix uc none = uc
with_prefix uc (some s) = record uc { v1_laptop_display_prefix = truncated 15 s }

unfoldable pub yaml_scalar_into_laptop_display_prefix_v1 : Context → Node → Context
unfolding yaml_scalar_to_string
yaml_scalar_into_laptop_display_prefix_v1 uc n = with_prefix uc (yaml_scalar_to_string (some n))

module _ (pf : Platform) where
  open pf use {lib}
  open lib use {sp}

  -- An entry that was read goes in, unless its display has one.
  abbrev pub put_named : {V : Type 0} → List (String × V) → Option (String × V) → List (String × V)
  put_named map none = map
  put_named map (some (name_desc, v)) = sp.put_if_absent map name_desc v

  -- What `read` makes of the map of an item, and its NAME_DESC.
  abbrev pub named :
      {V : Type 0} → (String → List (String × Node) → Option V) → Node → Option (String × V)
  named read n = yaml_map_to_spmap pf (some n) >>= λ m.
      yaml_scalar_to_name_desc pf (sp.get m "NAME_DESC") >>= λ name_desc.
      read name_desc m >>= λ v. some (name_desc, v)

  unfoldable pub yaml_map_into_transforms_v1 : List (String × ℕ) → Node → List (String × ℕ)
  unfolding yaml_map_to_spmap yaml_scalar_to_name_desc yaml_scalar_to_enum
  yaml_map_into_transforms_v1 transforms n =
      put_named transforms
        (named (λ name_desc m. yaml_scalar_to_enum transform_val (sp.get m "TRANSFORM")) n)

  abbrev pub conditions_in : List (String × Node) → CfgDisabled → CfgDisabled
  conditions_in m d = record {
    conditions = (yaml_seq_into_col (yaml_map_into_conditions pf) d.conditions (sp.get m "IF")).0;
  }

  abbrev pub disabled_in : List (String × CfgDisabled) → String → CfgDisabled
  disabled_in map name_desc = elim (sp.get map name_desc) [ none ↦ cfg_disabled_init | some d ↦ d ]

  abbrev pub with_disabled :
      List (String × CfgDisabled)
      → Option (String × List (String × Node))
      → List (String × CfgDisabled)
  with_disabled map none = map
  with_disabled map (some (name_desc, m)) =
      sp.put map name_desc (conditions_in m (disabled_in map name_desc))

  abbrev pub plain_disabled :
      List (String × CfgDisabled) → Option String → List (String × CfgDisabled)
  plain_disabled map none = map
  plain_disabled map (some name_desc) = sp.put_if_absent map name_desc cfg_disabled_init

  -- The display of a scalar has no condition; the conditions of a map join those that its display has.
  unfoldable pub yaml_node_into_disableds_v1 :
      List (String × CfgDisabled) → Node → List (String × CfgDisabled)
  unfolding yaml_scalar_to_name_desc yaml_map_to_spmap yaml_seq_into_col yaml_map_into_conditions
      cfg_disabled_init
  yaml_node_into_disableds_v1 disableds (scalar s) =
      plain_disabled disableds (yaml_scalar_to_name_desc pf (some (scalar s)))
  yaml_node_into_disableds_v1 disableds (mapping ps) =
      with_disabled disableds (named (λ name_desc m. some m) (mapping ps))
  yaml_node_into_disableds_v1 disableds (sequence ns) = disableds

module _ (pf : Platform) (sc : Scanner pf.Real) where
  open pf use {lib}
  open lib use {sp}

  unfoldable pub yaml_map_into_cfg_modes_v1 :
      (String → ℕ) → List (String × Mode) → Node → List (String × Mode)
  unfolding mode_fields mode_init yaml_map_to_spmap yaml_scalar_to_name_desc
  yaml_map_into_cfg_modes_v1 addr modes n =
      put_named pf modes
        (named pf (λ name_desc m. mode_fields pf sc (mode_init (addr name_desc)) m) n)

  unfoldable pub yaml_map_into_scales_v1 : List (String × ℕ) → Node → List (String × ℕ)
  unfolding yaml_map_to_spmap yaml_scalar_to_name_desc
  yaml_map_into_scales_v1 scales n =
      put_named pf scales (named pf (λ name_desc m. read_scale pf sc (sp.get m "SCALE")) n)
