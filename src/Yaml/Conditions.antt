-- ===== src/Yaml/Conditions.antt =====
-- The functions of src/yaml/unmarshal-types.c for the displays that are disabled, and their conditions.
use way_displays.Prelude.{
  ◌==◌, ◌&&◌, Bool, Option, none, some, String, List, [], ◌∷◌, if◌then◌else◌, is_some, not,
}
use way_displays.Enums.{ConditionLid}
use way_displays.Enums.Values.{condition_lid_val}
use way_displays.Platform.{Platform}
use way_displays.Cfg.{CfgCondition, CfgDisabled}
use way_displays.Cfg.Equal.{condition_equal}
use way_displays.Args.Element.{cfg_disabled_init}
use way_displays.Yaml.{Node, scalar, sequence, mapping}
use way_displays.Yaml.Primitives.{
  ◌>>=◌, yaml_scalar_to_enum, yaml_seq_into_col, yaml_map_to_spmap, yaml_valid_name_desc,
  yaml_seq_into_name_desc_sset,
}
use way_displays.Yaml.Modes.{field}

module _ (pf : Platform) where
  open pf use {lib}
  open lib use {sp, ss, ps}

  abbrev pub patterns : Option Node → List String
  patterns none = []
  patterns (some n) = yaml_seq_into_name_desc_sset pf [] n

  abbrev pub read_lid : Option Node → Option (Option ConditionLid)
  read_lid n = yaml_scalar_to_enum condition_lid_val n >>= λ lid. some (some lid)

  abbrev pub is_empty : CfgCondition → Bool
  is_empty c = ss.size c.plugged == 0 && ss.size c.unplugged == 0 && not (is_some c.lid)

  abbrev pub with_lid :
      Option (Option ConditionLid) → List String → List String → Option CfgCondition
  with_lid none plugged unplugged = none
  with_lid (some lid) plugged unplugged =
      let c : CfgCondition = record { plugged = plugged; unplugged = unplugged; lid = lid } in
      if is_empty c then none else some c

  -- The condition of a map; one that asks for nothing is refused.
  unfoldable pub condition_of : List (String × Node) → Option CfgCondition
  unfolding yaml_seq_into_name_desc_sset yaml_scalar_to_enum
  condition_of m =
      with_lid (field none read_lid (sp.get m "LID")) (patterns (sp.get m "PLUGGED"))
        (patterns (sp.get m "UNPLUGGED"))

  abbrev pub add_condition : List CfgCondition → Option CfgCondition → List CfgCondition
  add_condition conditions none = conditions
  add_condition conditions (some c) = ps.add (condition_equal pf) conditions c

  unfoldable pub yaml_map_into_conditions : List CfgCondition → Node → List CfgCondition
  unfolding condition_of yaml_map_to_spmap
  yaml_map_into_conditions conditions n =
      add_condition conditions (yaml_map_to_spmap pf (some n) >>= condition_of)

  abbrev pub with_conditions : List CfgCondition × Bool → Option CfgDisabled
  with_conditions (conditions, read) =
      if read && not (ps.size conditions == 0)
      then some (record { conditions = conditions })
      else none

  -- At least one condition must be read.
  unfoldable pub yaml_map_to_disabled_cond : Node → Option CfgDisabled
  unfolding yaml_map_into_conditions yaml_seq_into_col yaml_map_to_spmap
  yaml_map_to_disabled_cond n = yaml_map_to_spmap pf (some n) >>= λ m. sp.get m "IF" >>= λ node_if.
      with_conditions (yaml_seq_into_col yaml_map_into_conditions [] (some node_if))

  -- A scalar stands for no condition; a sequence is skipped.
  abbrev pub disabled_of : Node → Option CfgDisabled
  disabled_of (scalar s) = some cfg_disabled_init
  disabled_of (mapping ps) = yaml_map_to_disabled_cond (mapping ps)
  disabled_of (sequence ns) = none

  abbrev pub put_disabled :
      List (String × CfgDisabled) → String → Option CfgDisabled → List (String × CfgDisabled)
  put_disabled map key none = map
  put_disabled map key (some d) = sp.put map key d

  unfoldable pub put_disableds :
      List (String × CfgDisabled) → List (String × Node) → List (String × CfgDisabled)
  unfolding yaml_valid_name_desc yaml_map_to_disabled_cond cfg_disabled_init
  put_disableds map [] = map
  put_disableds map ((key, n) ∷ rest) =
      let next =
        if yaml_valid_name_desc pf key then put_disabled map key (disabled_of n) else map in
      put_disableds next rest

  abbrev pub put_all_disableds :
      List (String × CfgDisabled) → Option (List (String × Node)) → List (String × CfgDisabled)
  put_all_disableds map none = map
  put_all_disableds map (some m) = put_disableds map m

  unfoldable pub yaml_map_into_disableds :
      List (String × CfgDisabled) → Node → List (String × CfgDisabled)
  unfolding put_disableds yaml_map_to_spmap
  yaml_map_into_disableds disableds n = put_all_disableds disableds (yaml_map_to_spmap pf (some n))
