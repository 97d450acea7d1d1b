-- ===== src/Yaml/State.antt =====
-- What src/yaml/marshal-types.c writes for a client: the heads, the lid, the captured lines of the log and
-- the response to an operation.
use way_displays.Prelude.{
  ℕ, ltb, pos, Bool, true, false, Option, none, some, String, List, [], ◌∷◌, ◌++◌, if◌then◌else◌,
}
use way_displays.Enums.{IpcCommand, LogThreshold, ManualOverride, log_threshold_code}
use way_displays.Enums.Names.{_name, transforms, log_thresholds}
use way_displays.Log.{LogCapLine}
use way_displays.Platform.{Platform}
use way_displays.Mode.{Mode}
use way_displays.Head.{Head, HeadState, AdaptiveSync, vrr_enabled, vrr_disabled}
use way_displays.Lid.{Lid}
use way_displays.World.{World}
use way_displays.Ipc.{IpcRequest, IpcOperation}
use way_displays.Yaml.{Node, sequence, mapping}
use way_displays.Yaml.Marshal.{
  Printer, Entries, nodes_of, pairs_of, flat, yaml_map_add_node, yaml_map_add_str,
  yaml_map_add_bool, yaml_map_add_int, yaml_map_add_float_nz, yaml_map_from_cfg,
}

-- The nodes that are made of the items; one that is 0 is left out.
abbrev pub made : {A : Type 0} → (A → Option Node) → List A → List Node
made fn [] = []
made fn (a ∷ l) = elim (fn a) [ none ↦ made fn l | some n ↦ n ∷ made fn l ]

-- A list without items adds nothing.
unfoldable pub yaml_map_add_plist :
    {A : Type 0} → String → List A → (A → Option Node) → Entries → Entries
yaml_map_add_plist key [] fn m = m
yaml_map_add_plist key (a ∷ l) fn m = m ++ (key, sequence (nodes_of (made fn (a ∷ l)))) ∷ []

abbrev is_override : ManualOverride → Bool
is_override ManualOverride.override_true = true
is_override _ = false

-- `DISABLED` where there is an override: it is true where the override is `OverrideTrue`.
abbrev pub override_entries : ManualOverride → Entries
override_entries ManualOverride.no_override = []
override_entries o = yaml_map_add_bool (some "DISABLED") (is_override o) []

unfoldable pub yaml_map_from_head_overrides : Head → Node
unfolding yaml_map_add_bool
yaml_map_from_head_overrides head = mapping (pairs_of (override_entries head.overrided_enabled))

abbrev pub is_vrr : AdaptiveSync → Bool
is_vrr vrr_enabled = true
is_vrr vrr_disabled = false

unfoldable pub yaml_map_from_lid : Lid → Node
unfolding yaml_map_add_bool yaml_map_add_str
yaml_map_from_lid lid = mapping (
    pairs_of (
      yaml_map_add_str (some "DEVICE_PATH") lid.device_path
        (yaml_map_add_bool (some "CLOSED") lid.closed [])))

-- A line with its threshold, where the request has no higher one.
abbrev pub message_of : LogCapLine → Node
message_of c = mapping (
    pairs_of (
      yaml_map_add_str (flat (_name log_thresholds (log_threshold_code c.threshold))) (some c.line)
        []))

abbrev pub threshold_code : Option LogThreshold → ℕ
threshold_code none = 0
threshold_code (some t) = log_threshold_code t

abbrev pub messages_from : ℕ → List LogCapLine → List Node
messages_from t [] = []
messages_from t (c ∷ cs) =
    let rest = messages_from t cs in
    if ltb (log_threshold_code c.threshold) t then rest else message_of c ∷ rest

abbrev pub if_any : List Node → Option Node
if_any [] = none
if_any (n ∷ ns) = some (sequence (nodes_of (n ∷ ns)))

-- The sequence of the lines that are shown, 0 where there are none.
unfoldable pub yaml_seq_from_messages : Option LogThreshold → List LogCapLine → Option Node
unfolding yaml_map_add_str
yaml_seq_from_messages t lines = if_any (messages_from (threshold_code t) lines)

module _ (pf : Platform) (pr : Printer pf.Real) where
  open pf use {lib, Real, wl_fixed_to_double}
  open lib use {pp}

  unfoldable pub yaml_map_from_head_mode : Option Mode → Option Node
  unfolding yaml_map_add_int
  yaml_map_from_head_mode none = none
  yaml_map_from_head_mode (some mode) = some (
      mapping (
        pairs_of (
          yaml_map_add_int pf pr (some "REFRESH_MHZ") mode.refresh_mhz (
            yaml_map_add_int pf pr (some "HEIGHT") mode.height
              (yaml_map_add_int pf pr (some "WIDTH") mode.width [])))))

  abbrev pub mode_for : Head → Option ℕ → Option Mode
  mode_for head none = none
  mode_for head (some zmode) = pp.get head.modes zmode

  unfoldable pub yaml_map_from_head_state : HeadState → Head → Node
  unfolding yaml_map_add_float_nz yaml_map_add_bool yaml_map_add_int yaml_map_add_str
      yaml_map_add_node yaml_map_from_head_mode
  yaml_map_from_head_state state head =
      let m1 = yaml_map_add_float_nz pf pr (some "SCALE") (wl_fixed_to_double state.scale) [] in
      let m2 = yaml_map_add_bool (some "ENABLED") state.enabled m1 in
      let m3 = yaml_map_add_int pf pr (some "X") state.x m2 in
      let m4 = yaml_map_add_int pf pr (some "Y") state.y m3 in
      let m5 = yaml_map_add_bool (some "VRR") (is_vrr state.adaptive_sync) m4 in
      let m6 = yaml_map_add_str (some "TRANSFORM") (flat (_name transforms state.transform)) m5 in
      mapping (
        pairs_of (
          yaml_map_add_node (some "MODE") (yaml_map_from_head_mode (mode_for head state.zmode)) m6))

  abbrev pub mode_node : Mode → Option Node
  mode_node mode = yaml_map_from_head_mode (some mode)

  -- The entries in front of CURRENT.
  abbrev pub head_about : Head → Entries
  head_about head =
      let m1 = yaml_map_add_str (some "NAME") head.name [] in
      let m2 = yaml_map_add_str (some "DESCRIPTION") head.description m1 in
      let m3 = yaml_map_add_str (some "MAKE") head.make m2 in
      let m4 = yaml_map_add_str (some "MODEL") head.model m3 in
      let m5 = yaml_map_add_str (some "SERIAL_NUMBER") head.serial_number m4 in
      let m6 = yaml_map_add_int pf pr (some "WIDTH_MM") head.width_mm m5 in
      yaml_map_add_int pf pr (some "HEIGHT_MM") head.height_mm m6

  abbrev pub head_states : Head → Entries
  head_states head =
      yaml_map_add_node (some "DESIRED") (some (yaml_map_from_head_state head.des head)) (
        yaml_map_add_node (some "CURRENT") (some (yaml_map_from_head_state head.cur head))
          (head_about head))

  abbrev pub head_entries : Head → Entries
  head_entries head =
      let m1 =
        yaml_map_add_node (some "OVERRIDES") (some (yaml_map_from_head_overrides head))
          (head_states head) in
      let m2 =
        yaml_map_add_node (some "MODE_PREFERRED")
          (yaml_map_from_head_mode (mode_for head head.zmode_pref)) m1 in
      let m3 = yaml_map_add_plist "MODES" (pp.vals_plist head.modes) mode_node m2 in
      yaml_map_add_plist "MODES_FAILED" (pp.vals_plist head.modes_failed) mode_node m3

  unfoldable pub yaml_map_from_head : Head → Node
  unfolding yaml_map_from_head_state yaml_map_from_head_overrides yaml_map_add_plist
      yaml_map_from_head_mode yaml_map_add_node yaml_map_add_str yaml_map_add_int
  yaml_map_from_head head = mapping (pairs_of (head_entries head))

  abbrev lid_entries : Option Lid → Entries
  lid_entries none = []
  lid_entries (some lid) = yaml_map_add_node (some "LID") (some (yaml_map_from_lid lid)) []

  unfoldable pub yaml_map_from_state : World Real → Node
  unfolding yaml_map_from_lid yaml_map_from_head yaml_map_add_plist yaml_map_add_node
  yaml_map_from_state w = mapping (
      pairs_of (
        yaml_map_add_plist "HEADS" (pp.vals_plist w.displ.heads)
          (λ head. some (yaml_map_from_head head)) (lid_entries w.lid)))

  abbrev pub state_entries : World Real → Bool → Entries → Entries
  state_entries w false m = m
  state_entries w true m =
      yaml_map_add_node (some "STATE") (some (yaml_map_from_state w))
        (yaml_map_add_node (some "CFG") (yaml_map_from_cfg pf pr (some w.cfg)) m)

  -- The entries of a response. The operation has the request.
  abbrev pub operation_entries : World Real → IpcRequest Real → IpcOperation Real → Entries
  operation_entries w request o = yaml_map_add_int pf pr (some "RC") (pos o.rc) (
      yaml_map_add_node (some "MESSAGES")
        (yaml_seq_from_messages request.log_threshold o.log_cap_lines)
        (state_entries w o.send_state (yaml_map_add_bool (some "DONE") o.done [])))

  unfoldable pub yaml_map_from_ipc_operation :
      World Real → IpcRequest Real → IpcOperation Real → Node
  unfolding yaml_map_from_state yaml_map_from_cfg yaml_seq_from_messages yaml_map_add_node
      yaml_map_add_int yaml_map_add_bool
  yaml_map_from_ipc_operation w request o = mapping (pairs_of (operation_entries w request o))

  abbrev pub by_command : Option IpcCommand → Node → Node
  by_command (some IpcCommand.get) n = n
  by_command _ n = sequence (nodes_of (n ∷ []))

  -- A map for GET, a sequence of one for the other commands. (`none`: the request is NULL, which C
  -- follows.)
  unfoldable pub yaml_root_from_ipc_operation : World Real → IpcOperation Real → Option Node
  unfolding yaml_map_from_ipc_operation
  yaml_root_from_ipc_operation w o = elim o.request [
    | none ↦ none
    | some request ↦ some (by_command request.command (yaml_map_from_ipc_operation w request o))
  ]
