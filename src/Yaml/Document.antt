-- ===== src/Yaml/Document.antt =====
-- The documents of src/yaml/unmarshal-types.c: the configuration, and the request of a client.
use way_displays.Prelude.{
  ℕ, pos, negsuc, ◌==◌, ◌||◌, true, Option, none, some, String, List, [], ◌∷◌, if◌then◌else◌,
  is_some,
}
use way_displays.Enums.{
  Arrange, Align, OnOff, ScaleRoundStrategy, CfgElement, IpcCommand, LogThreshold,
}
use way_displays.Enums.Values.{
  arrange_val_start, align_val_start, cfg_element_val, log_threshold_val, scale_round_strategy_val,
  ipc_command_val,
}
use way_displays.Enums.Names.{_name, scale_round_tos}
use way_displays.Platform.{Platform}
use way_displays.Cfg.{Cfg}
use way_displays.Cfg.Init.{cfg_init}
use way_displays.Cfg.Defaults.{callback_cmd_default, auto_scale_dpi_default, scale_round_to_default}
use way_displays.Cfg.Migrate.{cfg_migrate_v1}
use way_displays.Ipc.{IpcRequest, ipc_request_init}
use way_displays.Yaml.{
  Node, Nodes, no_nodes, node, scalar, sequence, mapping, items, entries, Scanner, Context,
  no_context, Loaded, refused, loaded, undefined,
}
use way_displays.Yaml.Primitives.{
  ◌>>=◌, or_default, yaml_scalar_to_string, yaml_scalar_to_string_def, yaml_scalar_to_enum,
  yaml_scalar_to_enum_def, yaml_scalar_to_on_off_def, yaml_scalar_to_int, yaml_scalar_to_float,
  into_col, yaml_map_to_spmap, yaml_seq_into_name_desc_sset,
}
use way_displays.Yaml.Modes.{
  yaml_map_into_cfg_modes, yaml_map_into_scales, yaml_map_into_transforms,
}
use way_displays.Yaml.Conditions.{yaml_map_into_disableds}
use way_displays.Yaml.Version1.{
  yaml_scalar_into_laptop_display_prefix_v1, yaml_map_into_transforms_v1,
  yaml_node_into_disableds_v1, yaml_map_into_cfg_modes_v1, yaml_map_into_scales_v1,
}

-- A sequence with items is of version 1.
abbrev pub notes_v1 : Context → Nodes → Context
notes_v1 uc no_nodes = uc
notes_v1 uc (node n rest) = record uc { v1_present = true }

abbrev pub prefix_of : String → Option String
prefix_of String.[] = none
prefix_of (String.◌∷◌ c s) = some (String.◌∷◌ c s)

module _ (pf : Platform) (sc : Scanner pf.Real) (addr : String → ℕ) where
  open pf use {lib, Real, of_int, div, eqb}
  open lib use {sp}

  abbrev in_table : ℕ → Option (Option String) → Option ℕ
  in_table ret (some (some name)) = some ret
  in_table ret _ = none

  -- `scale_round_to_val` of src/enum.c; `none` for 0.
  unfoldable pub scale_round_to_val : Real → Option ℕ
  scale_round_to_val scale_round_to =
      let ret = sc.size_of (div (of_int (pos 1)) scale_round_to) in
      if eqb scale_round_to (of_int (pos 0)) then none else in_table ret (_name scale_round_tos ret)

  unfoldable pub yaml_scalar_to_scale_round_to : Node → ℕ
  unfolding scale_round_to_val yaml_scalar_to_float
  yaml_scalar_to_scale_round_to n =
      or_default scale_round_to_default (yaml_scalar_to_float pf sc (some n) >>= scale_round_to_val)

  -- An element that is a map, or a sequence of version 1.
  abbrev pub scales_in : Cfg Real × Context → Node → Cfg Real × Context
  scales_in (cfg, uc) (mapping ps) =
      (record cfg { scales = yaml_map_into_scales pf sc cfg.scales (mapping ps) }, uc)
  scales_in (cfg, uc) (sequence ns) = (
    record cfg { scales = into_col (yaml_map_into_scales_v1 pf sc) cfg.scales (items ns) },
    notes_v1 uc ns,
  )
  scales_in (cfg, uc) (scalar s) = (cfg, uc)

  abbrev pub modes_in : Cfg Real × Context → Node → Cfg Real × Context
  modes_in (cfg, uc) (mapping ps) =
      (record cfg { modes = yaml_map_into_cfg_modes pf sc addr cfg.modes (mapping ps) }, uc)
  modes_in (cfg, uc) (sequence ns) = (
    record cfg { modes = into_col (yaml_map_into_cfg_modes_v1 pf sc addr) cfg.modes (items ns) },
    notes_v1 uc ns,
  )
  modes_in (cfg, uc) (scalar s) = (cfg, uc)

  abbrev pub transforms_in : Cfg Real × Context → Node → Cfg Real × Context
  transforms_in (cfg, uc) (mapping ps) =
      (record cfg { transforms = yaml_map_into_transforms pf sc cfg.transforms (mapping ps) }, uc)
  transforms_in (cfg, uc) (sequence ns) = (
    record cfg { transforms = into_col (yaml_map_into_transforms_v1 pf) cfg.transforms (items ns) },
    notes_v1 uc ns,
  )
  transforms_in (cfg, uc) (scalar s) = (cfg, uc)

  -- An empty map, or a scalar, says that no display is disabled.
  abbrev pub disableds_in : Cfg Real × Context → Node → Cfg Real × Context
  disableds_in (cfg, uc) (mapping ps) =
      let disableds = yaml_map_into_disableds pf cfg.disableds (mapping ps) in
      (record cfg { disableds = disableds; disableds_empty = sp.size disableds == 0 }, uc)
  disableds_in (cfg, uc) (sequence ns) = (
    record cfg { disableds = into_col (yaml_node_into_disableds_v1 pf) cfg.disableds (items ns) },
    notes_v1 uc ns,
  )
  disableds_in (cfg, uc) (scalar s) = (record cfg { disableds_empty = true }, uc)

  -- The `switch` on the element.
  unfoldable pub element_in : Cfg Real × Context → Option CfgElement → Node → Cfg Real × Context
  unfolding yaml_scalar_to_enum_def yaml_scalar_to_enum yaml_scalar_to_on_off_def yaml_scalar_to_int
      yaml_scalar_to_float yaml_scalar_to_string_def yaml_scalar_to_scale_round_to
      yaml_seq_into_name_desc_sset yaml_map_into_scales yaml_map_into_cfg_modes
      yaml_map_into_transforms yaml_map_into_disableds yaml_map_into_scales_v1
      yaml_map_into_cfg_modes_v1 yaml_map_into_transforms_v1 yaml_node_into_disableds_v1
      yaml_scalar_into_laptop_display_prefix_v1
  element_in (cfg, uc) (some CfgElement.arrange) n = (
    record cfg { arrange = some (yaml_scalar_to_enum_def Arrange.row arrange_val_start (some n)) },
    uc,
  )
  element_in (cfg, uc) (some CfgElement.align) n =
      (record cfg { align = some (yaml_scalar_to_enum_def Align.top align_val_start (some n)) }, uc)
  element_in (cfg, uc) (some CfgElement.order) n =
      (record cfg { order_name_desc = yaml_seq_into_name_desc_sset pf cfg.order_name_desc n }, uc)
  element_in (cfg, uc) (some CfgElement.scaling) n =
      (record cfg { scaling = some (yaml_scalar_to_on_off_def OnOff.on (some n)) }, uc)
  element_in (cfg, uc) (some CfgElement.auto_scale) n =
      (record cfg { auto_scale = some (yaml_scalar_to_on_off_def OnOff.on (some n)) }, uc)
  element_in (cfg, uc) (some CfgElement.scale) n = scales_in (cfg, uc) n
  element_in (cfg, uc) (some CfgElement.scale_round_to) n =
      (record cfg { scale_round_to = yaml_scalar_to_scale_round_to n }, uc)
  element_in (cfg, uc) (some CfgElement.scale_round_strategy) n = (
    record cfg {
      scale_round_strategy =
          some
            (yaml_scalar_to_enum_def ScaleRoundStrategy.nearest scale_round_strategy_val (some n));
    },
    uc,
  )
  element_in (cfg, uc) (some CfgElement.mode) n = modes_in (cfg, uc) n
  element_in (cfg, uc) (some CfgElement.transform) n = transforms_in (cfg, uc) n
  element_in (cfg, uc) (some CfgElement.vrr_off) n = (
    record cfg { adaptive_sync_off = yaml_seq_into_name_desc_sset pf cfg.adaptive_sync_off n },
    uc,
  )
  element_in (cfg, uc) (some CfgElement.callback_cmd) n = (
    record cfg { callback_cmd = some (yaml_scalar_to_string_def callback_cmd_default (some n)) },
    uc,
  )
  element_in (cfg, uc) (some CfgElement.laptop_display_prefix) n =
      (cfg, yaml_scalar_into_laptop_display_prefix_v1 uc n)
  element_in (cfg, uc) (some CfgElement.laptop_lid_monitor) n =
      (record cfg { laptop_lid_monitor = some (yaml_scalar_to_on_off_def OnOff.on (some n)) }, uc)
  element_in (cfg, uc) (some CfgElement.log_threshold) n =
      (record cfg { log_threshold = yaml_scalar_to_enum log_threshold_val (some n) }, uc)
  element_in (cfg, uc) (some CfgElement.disabled) n = disableds_in (cfg, uc) n
  element_in (cfg, uc) (some CfgElement.auto_scale_dpi) n = (
    record cfg {
      auto_scale_dpi = or_default auto_scale_dpi_default (yaml_scalar_to_int pf sc (some n));
    },
    uc,
  )
  element_in (cfg, uc) (some CfgElement.auto_scale_min) n = (
    record cfg {
      auto_scale_min = or_default (of_int (pos 1)) (yaml_scalar_to_float pf sc (some n));
    },
    uc,
  )
  element_in (cfg, uc) (some CfgElement.auto_scale_max) n = (
    record cfg {
      auto_scale_max = or_default (of_int (negsuc 0)) (yaml_scalar_to_float pf sc (some n));
    },
    uc,
  )
  element_in (cfg, uc) _ n = (cfg, uc)

  abbrev pub key_in : Cfg Real × Context → Option String → Node → Cfg Real × Context
  key_in c none n = c
  key_in c (some name) n = element_in c (cfg_element_val (some name)) n

  unfoldable pub pairs_in : Cfg Real × Context → List (Node × Node) → Cfg Real × Context
  unfolding element_in yaml_scalar_to_string
  pairs_in c [] = c
  pairs_in c ((k, n) ∷ rest) = pairs_in (key_in c (yaml_scalar_to_string (some k)) n) rest

  -- The configuration of a map. What is no map is read as if it were one.
  unfoldable pub yaml_map_to_cfg : Node → Loaded (Cfg Real × Context)
  unfolding pairs_in
  yaml_map_to_cfg (mapping ps) = loaded (pairs_in (cfg_init pf, no_context) (entries ps))
  yaml_map_to_cfg _ = undefined

  abbrev pub migrated : Cfg Real × Context → Cfg Real
  migrated (cfg, uc) =
      if uc.v1_present || is_some (prefix_of uc.v1_laptop_display_prefix)
      then cfg_migrate_v1 pf cfg (prefix_of uc.v1_laptop_display_prefix)
      else cfg

  -- A configuration of version 1 is migrated.
  unfoldable pub yaml_root_to_cfg : Option Node → Loaded (Cfg Real)
  unfolding pairs_in cfg_migrate_v1
  yaml_root_to_cfg (some (mapping ps)) =
      loaded (migrated (pairs_in (cfg_init pf, no_context) (entries ps)))
  yaml_root_to_cfg _ = refused

  abbrev pub with_cfg : IpcRequest Real → Loaded (Cfg Real × Context) → Loaded (IpcRequest Real)
  with_cfg request refused = refused
  with_cfg request (loaded (cfg, uc)) = loaded (record request { cfg = some cfg })
  with_cfg request undefined = undefined

  abbrev pub with_cfg_node : IpcRequest Real → Option Node → Loaded (IpcRequest Real)
  with_cfg_node request none = loaded request
  with_cfg_node request (some n) = with_cfg request (yaml_map_to_cfg n)

  abbrev pub request_with :
      Option IpcCommand → Option LogThreshold → Option Node → Loaded (IpcRequest Real)
  request_with none threshold cfg = refused
  request_with (some command) threshold cfg =
      with_cfg_node (record (ipc_request_init (some command)) { log_threshold = threshold }) cfg

  abbrev pub request_from : Option Node → Option Node → Option Node → Loaded (IpcRequest Real)
  request_from op threshold cfg =
      request_with (yaml_scalar_to_enum ipc_command_val op)
        (yaml_scalar_to_enum log_threshold_val threshold) cfg

  abbrev pub request_of : Option (List (String × Node)) → Loaded (IpcRequest Real)
  request_of none = refused
  request_of (some m) = request_from (sp.get m "OP") (sp.get m "LOG_THRESHOLD") (sp.get m "CFG")

  -- A request has an operation.
  unfoldable pub yaml_root_to_ipc_request : Option Node → Loaded (IpcRequest Real)
  unfolding yaml_map_to_cfg yaml_map_to_spmap yaml_scalar_to_enum ipc_request_init
  yaml_root_to_ipc_request root = request_of (yaml_map_to_spmap pf root)
