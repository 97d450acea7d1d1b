-- ===== src/Yaml/Restored.antt =====
-- A configuration that is written is read as it was, in a file and in a request: `yaml_root_from_cfg` and
-- `yaml_root_from_ipc_request` of src/yaml/marshal-types.c, and what src/yaml/unmarshal-types.c reads of
-- their documents.
use Prim.Native.Nat.{ℕ}
use way_displays.Prelude.{◌≡◌, refl, ◌∙◌, Option, none, some, String}
use way_displays.Enums.{log_threshold_code}
use way_displays.Enums.Names.{_name, log_thresholds}
use way_displays.Platform.{Platform}
use way_displays.Cfg.{Cfg}
use way_displays.Cfg.Init.{cfg_init}
use way_displays.Yaml.{Scanner, loaded}
use way_displays.Yaml.Document.{yaml_root_to_cfg, pairs_in, migrated}
use way_displays.Yaml.Marshal.{
  Printer, Entries, name_in, yaml_map_from_cfg, cfg_entries, yaml_map_add_str, add_on_off,
  yaml_map_add_sset, yaml_map_add_node, yaml_map_from_scales, yaml_map_from_cfg_modes,
  yaml_map_from_transforms, yaml_map_from_disableds,
}
use way_displays.Yaml.Elements.{
  node_step, str_step, on_off_step, log_threshold-Effect, laptop_lid_monitor-Effect,
  callback-Effect,
}
use way_displays.Yaml.Collected.{
  vrr_off-Effect, scales-Effect, modes-Effect, transforms-Effect, disabled-Effect, none_disabled,
}
use way_displays.Enums.{IpcCommand, LogThreshold}
use way_displays.Yaml.Document.{yaml_root_to_ipc_request, yaml_map_to_cfg, with_cfg}
use way_displays.Yaml.Marshal.{yaml_root_from_ipc_request}
use way_displays.Yaml.RoundTrip.{request_for, request_round_trip}
use way_displays.Yaml.Writable.{Writable, Reads, sset_step, general, general_entries, general_read}

module _ (pf : Platform) (sc : Scanner pf.Real) (pr : Printer pf.Real) (addr : String → ℕ) where
  open pf use {Real}

  abbrev kept_entries : Cfg Real → Entries
  kept_entries cfg =
      let m1 : Entries =
        yaml_map_add_node (some "SCALE") (some (yaml_map_from_scales pf pr cfg.scales))
          (general_entries pf sc pr addr cfg) in
      let m2 : Entries =
        yaml_map_add_node (some "MODE") (some (yaml_map_from_cfg_modes pf pr cfg.modes)) m1 in
      let m3 : Entries =
        yaml_map_add_node (some "TRANSFORM") (some (yaml_map_from_transforms cfg.transforms)) m2 in
      let m4 : Entries = yaml_map_add_sset (some "VRR_OFF") cfg.adaptive_sync_off m3 in m4

  abbrev kept : Cfg Real → Cfg Real
  kept cfg = record (general pf sc pr addr cfg) {
    scales = cfg.scales;
    modes = cfg.modes;
    transforms = cfg.transforms;
    adaptive_sync_off = cfg.adaptive_sync_off;
  }

  kept_read :
      (cfg : Cfg Real)
      → Writable pf sc pr addr cfg
      → Reads pf sc pr addr (kept_entries cfg) (kept cfg)
  unfolding cfg_init pairs_in
  kept_read cfg w =
      let m1 : Entries =
        yaml_map_add_node (some "SCALE") (some (yaml_map_from_scales pf pr cfg.scales))
          (general_entries pf sc pr addr cfg) in
      let k1 : Cfg Real = record (general pf sc pr addr cfg) { scales = cfg.scales } in
      let e1 =
        node_step pf sc addr "SCALE" (some (yaml_map_from_scales pf pr cfg.scales))
          (general_entries pf sc pr addr cfg) (general pf sc pr addr cfg) k1
          (general_read pf sc pr addr cfg w)
          (scales-Effect pf sc pr addr cfg.scales (general pf sc pr addr cfg) w.scale_names
            w.scale_values refl) in
      let m2 : Entries =
        yaml_map_add_node (some "MODE") (some (yaml_map_from_cfg_modes pf pr cfg.modes)) m1 in
      let k2 : Cfg Real = record k1 { modes = cfg.modes } in
      let e2 =
        node_step pf sc addr "MODE" (some (yaml_map_from_cfg_modes pf pr cfg.modes)) m1 k1 k2 (e1)
          (modes-Effect pf sc pr addr cfg.modes k1 w.mode_names w.mode_values refl) in
      let m3 : Entries =
        yaml_map_add_node (some "TRANSFORM") (some (yaml_map_from_transforms cfg.transforms)) m2 in
      let k3 : Cfg Real = record k2 { transforms = cfg.transforms } in
      let e3 =
        node_step pf sc addr "TRANSFORM" (some (yaml_map_from_transforms cfg.transforms)) m2 k2 k3
          (e2)
          (transforms-Effect pf sc pr addr cfg.transforms k2 w.transform_names w.transform_values
            refl) in
      let m4 : Entries = yaml_map_add_sset (some "VRR_OFF") cfg.adaptive_sync_off m3 in
      let k4 : Cfg Real = record k3 { adaptive_sync_off = cfg.adaptive_sync_off } in
      let e4 =
        sset_step pf sc pr addr "VRR_OFF" cfg.adaptive_sync_off m3 k3 k4 (e3)
          (vrr_off-Effect pf sc pr addr cfg.adaptive_sync_off k3 w.vrr_off refl) in
      e4

  abbrev whole_entries : Cfg Real → Entries
  whole_entries cfg =
      let m1 : Entries =
        yaml_map_add_str (some "CALLBACK_CMD") cfg.callback_cmd (kept_entries cfg) in
      let m2 : Entries = add_on_off (some "LAPTOP_LID_MONITOR") cfg.laptop_lid_monitor m1 in
      let m3 : Entries =
        yaml_map_add_str (some "LOG_THRESHOLD")
          (name_in log_thresholds log_threshold_code cfg.log_threshold) m2 in
      let m4 : Entries =
        yaml_map_add_node (some "DISABLED") (some (yaml_map_from_disableds cfg.disableds)) m3 in
      m4

  abbrev whole : Cfg Real → Cfg Real
  whole cfg = record (kept cfg) {
    callback_cmd = cfg.callback_cmd;
    laptop_lid_monitor = cfg.laptop_lid_monitor;
    log_threshold = cfg.log_threshold;
    disableds = cfg.disableds;
    disableds_empty = none_disabled pf sc pr addr cfg.disableds;
  }

  whole_read :
      (cfg : Cfg Real)
      → Writable pf sc pr addr cfg
      → Reads pf sc pr addr (whole_entries cfg) (whole cfg)
  unfolding cfg_init pairs_in
  whole_read cfg w =
      let m1 : Entries =
        yaml_map_add_str (some "CALLBACK_CMD") cfg.callback_cmd (kept_entries cfg) in
      let k1 : Cfg Real = record (kept cfg) { callback_cmd = cfg.callback_cmd } in
      let e1 =
        str_step pf sc addr "CALLBACK_CMD" cfg.callback_cmd (kept_entries cfg) (kept cfg) k1
          (kept_read cfg w) (callback-Effect pf sc addr cfg.callback_cmd (kept cfg) refl) in
      let m2 : Entries = add_on_off (some "LAPTOP_LID_MONITOR") cfg.laptop_lid_monitor m1 in
      let k2 : Cfg Real = record k1 { laptop_lid_monitor = cfg.laptop_lid_monitor } in
      let e2 =
        on_off_step pf sc addr "LAPTOP_LID_MONITOR" cfg.laptop_lid_monitor m1 k1 k2 (e1)
          (laptop_lid_monitor-Effect pf sc addr cfg.laptop_lid_monitor k1 refl) in
      let m3 : Entries =
        yaml_map_add_str (some "LOG_THRESHOLD")
          (name_in log_thresholds log_threshold_code cfg.log_threshold) m2 in
      let k3 : Cfg Real = record k2 { log_threshold = cfg.log_threshold } in
      let e3 =
        str_step pf sc addr "LOG_THRESHOLD"
          (name_in log_thresholds log_threshold_code cfg.log_threshold) m2 k2 k3 (e2)
          (log_threshold-Effect pf sc addr cfg.log_threshold k2 refl) in
      let m4 : Entries =
        yaml_map_add_node (some "DISABLED") (some (yaml_map_from_disableds cfg.disableds)) m3 in
      let k4 : Cfg Real = record k3 {
        disableds = cfg.disableds;
        disableds_empty = none_disabled pf sc pr addr cfg.disableds;
      } in
      let e4 =
        node_step pf sc addr "DISABLED" (some (yaml_map_from_disableds cfg.disableds)) m3 k3 k4 (e3)
          (disabled-Effect pf sc pr addr cfg.disableds k3 w.disabled_values refl) in
      e4

  -- Only that no display is disabled is noted where none is.
  abbrev pub restored : Cfg Real → Cfg Real
  restored cfg = record cfg { disableds_empty = none_disabled pf sc pr addr cfg.disableds }

  -- A configuration that can be written is read as it was; only that no display is disabled is noted
  -- where none is.
  pub cfg_round_trip :
      (cfg : Cfg Real)
      → Writable pf sc pr addr cfg
      → yaml_root_to_cfg pf sc addr (yaml_map_from_cfg pf pr (some cfg)) ≡ loaded (restored cfg)
  unfolding yaml_root_to_cfg yaml_map_from_cfg cfg_entries _name
  cfg_round_trip cfg w i = loaded (migrated pf sc addr (whole_read cfg w i))

  abbrev pub WritableIf : Option (Cfg Real) → Type 0
  WritableIf none = Unit
  WritableIf (some cfg) = Writable pf sc pr addr cfg

  abbrev pub restored_if : Option (Cfg Real) → Option (Cfg Real)
  restored_if none = none
  restored_if (some cfg) = some (restored cfg)

  -- The daemon reads a request as the client sent it, where its configuration, if it has one, can be
  -- written; only that no display is disabled is noted in it where none is.
  pub request_restored :
      (command : IpcCommand) (t : Option LogThreshold) (cfg : Option (Cfg Real))
      → WritableIf cfg
      → yaml_root_to_ipc_request pf sc addr
          (yaml_root_from_ipc_request pf pr (request_for command t cfg))
        ≡ loaded (request_for command t (restored_if cfg))
  unfolding yaml_map_to_cfg yaml_map_from_cfg cfg_entries _name
  request_restored command t none w = request_round_trip pf sc pr addr command t none
  request_restored command t (some cfg) w =
      request_round_trip pf sc pr addr command t (some cfg)
      ∙ (λ i. with_cfg pf sc addr (request_for command t none) (loaded (whole_read cfg w i)))
