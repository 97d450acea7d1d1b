-- ===== src/Yaml/Marshal.antt =====
-- The half of src/yaml that writes, for a configuration and for a request: marshal-primitives.c and these
-- parts of marshal-types.c. That libyaml has no memory for a node is left aside, and so is the
-- style of a node; the document that is made is a tree, whose text libyaml prints.
use way_displays.Prelude.{
  ℕ, ℤ, pos, negsuc, eqb_ℤ, Bool, Option, none, some, String, List, [], ◌∷◌, ◌++◌, if◌then◌else◌,
}
use way_displays.Enums.{
  CfgElement, OnOff, cfg_element_code, arrange_code, align_code, scale_round_strategy_code,
  log_threshold_code, condition_lid_code, ipc_command_code,
}
use way_displays.Enums.Names.{
  NameVal, _name, cfg_elements, arranges, aligns, scale_round_tos, scale_round_strategies,
  log_thresholds, condition_lids, transforms, ipc_commands,
}
use way_displays.Platform.{Platform}
use way_displays.Mode.{Mode}
use way_displays.Cfg.{Cfg, CfgCondition, CfgDisabled}
use way_displays.Ipc.{IpcRequest}
use way_displays.Yaml.{
  Node, Nodes, Pairs, scalar, sequence, mapping, no_nodes, node, no_pairs, pair,
}
use way_displays.Yaml.Primitives.{is_on}

-- `printf` with "%d" and "%g".
pub record Printer (Real : Type 0) : Type 0 where
  pub show_int : ℤ → String
  pub show_float : Real → String

-- A mapping that is being made: its pairs so far.
abbrev pub Entries : Type 0
Entries = List (String × Node)

abbrev pub nodes_of : List Node → Nodes
nodes_of [] = no_nodes
nodes_of (n ∷ ns) = node n (nodes_of ns)

abbrev pub pairs_of : Entries → Pairs
pairs_of [] = no_pairs
pairs_of ((key, n) ∷ rest) = pair (scalar key) n (pairs_of rest)

abbrev pub flat : Option (Option String) → Option String
flat none = none
flat (some o) = o

-- The names of src/enum.c, NULL (`none`) where a table has none.
abbrev pub name_in : {A : Type 0} → List NameVal → (A → ℕ) → Option A → Option String
name_in table code none = flat (_name table 0)
name_in table code (some a) = flat (_name table (code a))

abbrev pub cfg_element_name : CfgElement → Option String
cfg_element_name e = flat (_name cfg_elements (cfg_element_code e))

-- A key that is NULL adds nothing, nor does a node that is 0.
unfoldable pub yaml_map_add_node : Option String → Option Node → Entries → Entries
yaml_map_add_node (some key) (some n) m = m ++ (key, n) ∷ []
yaml_map_add_node _ n m = m

unfoldable pub yaml_map_add_str : Option String → Option String → Entries → Entries
yaml_map_add_str (some key) (some s) m = m ++ (key, scalar s) ∷ []
yaml_map_add_str _ s m = m

unfoldable pub yaml_map_add_bool : Option String → Bool → Entries → Entries
unfolding yaml_map_add_str
yaml_map_add_bool key b m = yaml_map_add_str key (some (if b then "TRUE" else "FALSE")) m

-- An on and off is a Boolean.
unfoldable pub add_on_off : Option String → Option OnOff → Entries → Entries
unfolding yaml_map_add_bool
add_on_off key none m = m
add_on_off key (some v) m = yaml_map_add_bool key (is_on v) m

abbrev pub scalars : List String → List Node
scalars [] = []
scalars (s ∷ ss) = scalar s ∷ scalars ss

-- An empty set is an empty scalar.
abbrev pub of_sset : List String → Node
of_sset [] = scalar ""
of_sset (s ∷ ss) = sequence (nodes_of (scalars (s ∷ ss)))

unfoldable pub yaml_map_add_sset : Option String → List String → Entries → Entries
unfolding yaml_map_add_node
yaml_map_add_sset key set m = yaml_map_add_node key (some (of_sset set)) m

abbrev pub add_some_sset : String → List String → Entries → Entries
add_some_sset key [] m = m
add_some_sset key (s ∷ ss) m = yaml_map_add_sset (some key) (s ∷ ss) m

unfoldable pub yaml_map_from_condition : CfgCondition → Node
unfolding yaml_map_add_sset yaml_map_add_str
yaml_map_from_condition c = mapping (
    pairs_of (
      yaml_map_add_str (some "LID") (name_in condition_lids condition_lid_code c.lid)
        (add_some_sset "UNPLUGGED" c.unplugged (add_some_sset "PLUGGED" c.plugged []))))

abbrev pub conditions_of : List CfgCondition → List Node
conditions_of [] = []
conditions_of (c ∷ cs) = yaml_map_from_condition c ∷ conditions_of cs

-- A display without conditions has an empty scalar.
abbrev pub of_conditions : List CfgCondition → Node
of_conditions [] = scalar ""
of_conditions (c ∷ cs) =
    mapping (pair (scalar "IF") (sequence (nodes_of (conditions_of (c ∷ cs)))) no_pairs)

abbrev pub of_disableds : List (String × CfgDisabled) → Entries
of_disableds [] = []
of_disableds ((key, d) ∷ rest) = (key, of_conditions d.conditions) ∷ of_disableds rest

-- A map without entries is an empty scalar.
unfoldable pub yaml_map_from_disableds : List (String × CfgDisabled) → Node
unfolding yaml_map_from_condition
yaml_map_from_disableds [] = scalar ""
yaml_map_from_disableds (e ∷ es) = mapping (pairs_of (of_disableds (e ∷ es)))

abbrev pub of_transforms : List (String × ℕ) → Entries → Entries
of_transforms [] m = m
of_transforms ((key, t) ∷ rest) m =
    of_transforms rest (yaml_map_add_str (some key) (flat (_name transforms t)) m)

unfoldable pub yaml_map_from_transforms : List (String × ℕ) → Node
unfolding yaml_map_add_str
yaml_map_from_transforms [] = scalar ""
yaml_map_from_transforms (e ∷ es) = mapping (pairs_of (of_transforms (e ∷ es) []))

module _ (pf : Platform) (pr : Printer pf.Real) where
  open pf use {Real, of_int, div, eqb}

  unfoldable pub yaml_map_add_int : Option String → ℤ → Entries → Entries
  unfolding yaml_map_add_str
  yaml_map_add_int key z m = yaml_map_add_str key (some (pr.show_int z)) m

  unfoldable pub yaml_map_add_int_nz : Option String → ℤ → Entries → Entries
  unfolding yaml_map_add_str
  yaml_map_add_int_nz key z m =
      if eqb_ℤ z (pos 0) then m else yaml_map_add_str key (some (pr.show_int z)) m

  unfoldable pub yaml_map_add_float_nz : Option String → Real → Entries → Entries
  unfolding yaml_map_add_str
  yaml_map_add_float_nz key r m =
      if eqb r (of_int (pos 0)) then m else yaml_map_add_str key (some (pr.show_float r)) m

  -- Thousandths.
  abbrev pub of_scales : List (String × ℕ) → Entries → Entries
  of_scales [] m = m
  of_scales ((key, s) ∷ rest) m =
      of_scales rest (yaml_map_add_float_nz (some key) (div (of_int (pos s)) (of_int (pos 1000))) m)

  unfoldable pub yaml_map_from_scales : List (String × ℕ) → Node
  unfolding yaml_map_add_float_nz
  yaml_map_from_scales [] = scalar ""
  yaml_map_from_scales (e ∷ es) = mapping (pairs_of (of_scales (e ∷ es) []))

  abbrev pub add_hz : ℤ → Entries → Entries
  add_hz mhz m =
      if eqb_ℤ mhz (negsuc 0)
      then m
      else yaml_map_add_str (some "HZ")
          (some (pr.show_float (div (of_int mhz) (of_int (pos 1000))))) m

  -- A mode is a maximum, the highest refresh, or a resolution with a refresh where it is given.
  unfoldable pub mode_entries : Mode → Entries
  unfolding yaml_map_add_int yaml_map_add_bool yaml_map_add_str
  mode_entries mode =
      if mode.max
      then yaml_map_add_bool (some "MAX") mode.max []
      else if mode.max_preferred_refresh
      then yaml_map_add_bool (some "MAX_PREFERRED_REFRESH") mode.max_preferred_refresh []
      else add_hz mode.refresh_mhz (
          yaml_map_add_int (some "HEIGHT") mode.height
            (yaml_map_add_int (some "WIDTH") mode.width []))

  abbrev pub of_modes : List (String × Mode) → Entries
  of_modes [] = []
  of_modes ((key, mode) ∷ rest) = (key, mapping (pairs_of (mode_entries mode))) ∷ of_modes rest

  unfoldable pub yaml_map_from_cfg_modes : List (String × Mode) → Node
  unfolding mode_entries
  yaml_map_from_cfg_modes [] = scalar ""
  yaml_map_from_cfg_modes (e ∷ es) = mapping (pairs_of (of_modes (e ∷ es)))

  -- The first half of the elements, in their order.
  abbrev general_entries : Cfg Real → Entries
  general_entries cfg =
      let m1 =
        yaml_map_add_str (cfg_element_name CfgElement.arrange)
          (name_in arranges arrange_code cfg.arrange) [] in
      let m2 =
        yaml_map_add_str (cfg_element_name CfgElement.align) (name_in aligns align_code cfg.align)
          m1 in
      let m3 = yaml_map_add_sset (cfg_element_name CfgElement.order) cfg.order_name_desc m2 in
      let m4 = add_on_off (cfg_element_name CfgElement.scaling) cfg.scaling m3 in
      let m5 =
        yaml_map_add_str (cfg_element_name CfgElement.scale_round_to)
          (flat (_name scale_round_tos cfg.scale_round_to)) m4 in
      let m6 =
        yaml_map_add_str (cfg_element_name CfgElement.scale_round_strategy)
          (name_in scale_round_strategies scale_round_strategy_code cfg.scale_round_strategy) m5 in
      let m7 = add_on_off (cfg_element_name CfgElement.auto_scale) cfg.auto_scale m6 in
      let m8 =
        yaml_map_add_int_nz (cfg_element_name CfgElement.auto_scale_dpi) cfg.auto_scale_dpi m7 in
      let m9 =
        yaml_map_add_float_nz (cfg_element_name CfgElement.auto_scale_min) cfg.auto_scale_min m8 in
      yaml_map_add_float_nz (cfg_element_name CfgElement.auto_scale_max) cfg.auto_scale_max m9

  unfoldable pub cfg_entries : Cfg Real → Entries
  unfolding yaml_map_add_str yaml_map_add_sset add_on_off yaml_map_add_int_nz yaml_map_add_float_nz
      yaml_map_add_node yaml_map_from_scales yaml_map_from_cfg_modes yaml_map_from_transforms
      yaml_map_from_disableds
  cfg_entries cfg =
      let m1 =
        yaml_map_add_node (cfg_element_name CfgElement.scale)
          (some (yaml_map_from_scales cfg.scales)) (general_entries cfg) in
      let m2 =
        yaml_map_add_node (cfg_element_name CfgElement.mode)
          (some (yaml_map_from_cfg_modes cfg.modes)) m1 in
      let m3 =
        yaml_map_add_node (cfg_element_name CfgElement.transform)
          (some (yaml_map_from_transforms cfg.transforms)) m2 in
      let m4 = yaml_map_add_sset (cfg_element_name CfgElement.vrr_off) cfg.adaptive_sync_off m3 in
      let m5 = yaml_map_add_str (cfg_element_name CfgElement.callback_cmd) cfg.callback_cmd m4 in
      let m6 =
        add_on_off (cfg_element_name CfgElement.laptop_lid_monitor) cfg.laptop_lid_monitor m5 in
      let m7 =
        yaml_map_add_str (cfg_element_name CfgElement.log_threshold)
          (name_in log_thresholds log_threshold_code cfg.log_threshold) m6 in
      yaml_map_add_node (cfg_element_name CfgElement.disabled)
        (some (yaml_map_from_disableds cfg.disableds)) m7

  unfoldable pub yaml_map_from_cfg : Option (Cfg Real) → Option Node
  unfolding cfg_entries
  yaml_map_from_cfg none = none
  yaml_map_from_cfg (some cfg) = some (mapping (pairs_of (cfg_entries cfg)))

  abbrev threshold_entry : IpcRequest Real → Entries → Entries
  threshold_entry request m = elim request.log_threshold [
    | none ↦ m
    | some t ↦
        yaml_map_add_str (some "LOG_THRESHOLD") (flat (_name log_thresholds (log_threshold_code t)))
          m
  ]

  unfoldable pub yaml_map_from_ipc_request : IpcRequest Real → Node
  unfolding yaml_map_from_cfg yaml_map_add_node yaml_map_add_str
  yaml_map_from_ipc_request request = mapping (
      pairs_of (
        yaml_map_add_node (some "CFG") (yaml_map_from_cfg request.cfg) (
          threshold_entry request (
            yaml_map_add_str (some "OP") (name_in ipc_commands ipc_command_code request.command)
              []))))

  abbrev if_named : IpcRequest Real → Option String → Option Node
  if_named request none = none
  if_named request (some op) = some (yaml_map_from_ipc_request request)

  -- Without an operation there is no document.
  unfoldable pub yaml_root_from_ipc_request : IpcRequest Real → Option Node
  unfolding yaml_map_from_ipc_request
  yaml_root_from_ipc_request request =
      if_named request (name_in ipc_commands ipc_command_code request.command)
