-- ===== src/Yaml/RoundTrip.antt =====
-- A message of a client or of the daemon is read by the other as it was meant: the document that src/yaml
-- makes of a request or of an operation, and what src/yaml reads of it.
use Prim.Native.Nat.{ℕ}
use way_displays.Prelude.{◌≡◌, refl, arith, ap, ◌∙◌, Option, none, some, String, List, [], ◌∷◌}
use way_displays.Enums.{IpcCommand, LogThreshold, ipc_command_code, log_threshold_code}
use way_displays.Enums.Names.{ipc_commands, log_thresholds, _val, val_in, _name}
use way_displays.Enums.Values.{ipc_command_val, log_threshold_val}
use way_displays.Prelude.Text.{strcasecmp}
use way_displays.Platform.{Platform}
use way_displays.Cfg.{Cfg}
use way_displays.Ipc.{IpcRequest, ipc_request_init}
use way_displays.Yaml.{Node, Pairs, scalar, entries, mapping, Scanner}
use way_displays.Yaml.Primitives.{
  yaml_map_to_spmap, put_pairs, yaml_scalar_to_enum, yaml_scalar_to_string,
}
use way_displays.Yaml.Document.{
  yaml_root_to_ipc_request, request_from, request_of, request_with, with_cfg_node,
}
use way_displays.Yaml.Marshal.{
  Printer, yaml_root_from_ipc_request, yaml_map_from_ipc_request, yaml_map_add_str,
  yaml_map_add_node, yaml_map_from_cfg, name_in, pairs_of,
}
use way_displays.Yaml.Lookup.{find_pair, get_pairs}

abbrev pub request_for :
    {Real : Type 0} → IpcCommand → Option LogThreshold → Option (Cfg Real) → IpcRequest Real
request_for command t cfg = record (ipc_request_init (some command)) {
  log_threshold = t;
  cfg = cfg;
}

abbrev named : Option String → Option Node
named none = none
named (some s) = some (scalar s)

command_read :
    (c : IpcCommand)
    → yaml_scalar_to_enum ipc_command_val (named (name_in ipc_commands ipc_command_code (some c)))
      ≡ some c
unfolding yaml_scalar_to_enum yaml_scalar_to_string ipc_command_val _val val_in strcasecmp _name
command_read IpcCommand.get = refl
command_read IpcCommand.list = refl
command_read IpcCommand.reapply = refl
command_read IpcCommand.cfg_set = refl
command_read IpcCommand.cfg_del = refl
command_read IpcCommand.cfg_write = refl
command_read IpcCommand.cfg_toggle = refl

threshold_read :
    (t : LogThreshold)
    → yaml_scalar_to_enum log_threshold_val
        (named (name_in log_thresholds log_threshold_code (some t)))
      ≡ some t
unfolding yaml_scalar_to_enum yaml_scalar_to_string log_threshold_val _val val_in strcasecmp _name
threshold_read LogThreshold.debug = refl
threshold_read LogThreshold.info = refl
threshold_read LogThreshold.warning = refl
threshold_read LogThreshold.error = refl
threshold_read LogThreshold.fatal = refl

module _ (pf : Platform) (sc : Scanner pf.Real) (pr : Printer pf.Real) (addr : String → ℕ) where
  open pf use {lib, Real}
  open lib use {sp}

  -- The document with these values.
  abbrev pairs_for : String → Option String → Option Node → Pairs
  pairs_for op threshold cfg = pairs_of (
      yaml_map_add_node (some "CFG") cfg
        (yaml_map_add_str (some "LOG_THRESHOLD") threshold (("OP", scalar op) ∷ [])))

  abbrev document : Option String → Option String → Option Node → Option Node
  document none threshold cfg = none
  document (some op) threshold cfg = some (mapping (pairs_for op threshold cfg))

  abbrev pub spmap_of : Option Node → Option (List (String × Node))
  spmap_of n = yaml_map_to_spmap pf n

  parts :
      (op threshold cfg : Option Node) (c : IpcCommand) (t : Option LogThreshold)
      → yaml_scalar_to_enum ipc_command_val op ≡ some c
      → yaml_scalar_to_enum log_threshold_val threshold ≡ t
      → request_from pf sc addr op threshold cfg
        ≡ with_cfg_node pf sc addr (request_for c t none) cfg
  unfolding ipc_request_init
  parts op threshold cfg c t h k i = request_with pf sc addr (h i) (k i) cfg

  found :
      (es : List (Node × Node)) (c : IpcCommand) (t : Option LogThreshold)
      → yaml_scalar_to_enum ipc_command_val (find_pair es "OP") ≡ some c
      → yaml_scalar_to_enum log_threshold_val (find_pair es "LOG_THRESHOLD") ≡ t
      → request_of pf sc addr (some (put_pairs pf [] es))
        ≡ with_cfg_node pf sc addr (request_for c t none) (find_pair es "CFG")
  found es c t h k =
      rw (get_pairs pf es "OP", get_pairs pf es "LOG_THRESHOLD", get_pairs pf es "CFG")
        (parts (find_pair es "OP") (find_pair es "LOG_THRESHOLD") (find_pair es "CFG") c t h k)

  read_back :
      (op threshold : Option String) (cfg : Option Node) (c : IpcCommand) (t : Option LogThreshold)
      → yaml_scalar_to_enum ipc_command_val (named op) ≡ some c
      → yaml_scalar_to_enum log_threshold_val (named threshold) ≡ t
      → request_of pf sc addr (spmap_of (document op threshold cfg))
        ≡ with_cfg_node pf sc addr (request_for c t none) cfg
  unfolding yaml_map_to_spmap yaml_map_add_str yaml_map_add_node yaml_scalar_to_enum
      yaml_scalar_to_string
  read_back none threshold cfg c t h k = absurd (ground (arith, h))
  read_back (some op) none none c t h k = found (entries (pairs_for op none none)) c t h k
  read_back (some op) none (some n) c t h k = found (entries (pairs_for op none (some n))) c t h k
  read_back (some op) (some x) none c t h k = found (entries (pairs_for op (some x) none)) c t h k
  read_back (some op) (some x) (some n) c t h k =
      found (entries (pairs_for op (some x) (some n))) c t h k

  abbrev threshold_name : Option LogThreshold → Option String
  threshold_name none = none
  threshold_name (some t) = name_in log_thresholds log_threshold_code (some t)

  threshold_back :
      (t : Option LogThreshold)
      → yaml_scalar_to_enum log_threshold_val (named (threshold_name t)) ≡ t
  unfolding yaml_scalar_to_enum yaml_scalar_to_string
  threshold_back none = refl
  threshold_back (some t) = threshold_read t

  request_document :
      (c : IpcCommand) (t : Option LogThreshold) (cfg : Option (Cfg Real))
      → yaml_root_from_ipc_request pf pr (request_for c t cfg)
        ≡ document
            (name_in ipc_commands ipc_command_code (some c))
            (threshold_name t)
            (yaml_map_from_cfg pf pr cfg)
  unfolding yaml_root_from_ipc_request ipc_request_init yaml_map_from_ipc_request _name
      yaml_map_add_str
  request_document IpcCommand.get none cfg = refl
  request_document IpcCommand.get (some t) cfg = refl
  request_document IpcCommand.list none cfg = refl
  request_document IpcCommand.list (some t) cfg = refl
  request_document IpcCommand.reapply none cfg = refl
  request_document IpcCommand.reapply (some t) cfg = refl
  request_document IpcCommand.cfg_set none cfg = refl
  request_document IpcCommand.cfg_set (some t) cfg = refl
  request_document IpcCommand.cfg_del none cfg = refl
  request_document IpcCommand.cfg_del (some t) cfg = refl
  request_document IpcCommand.cfg_write none cfg = refl
  request_document IpcCommand.cfg_write (some t) cfg = refl
  request_document IpcCommand.cfg_toggle none cfg = refl
  request_document IpcCommand.cfg_toggle (some t) cfg = refl

  -- A request is read with the operation and the threshold that it was sent with, and with what is
  -- read of the document of its configuration, if it has one.
  pub request_round_trip :
      (command : IpcCommand) (t : Option LogThreshold) (cfg : Option (Cfg Real))
      → yaml_root_to_ipc_request pf sc addr
          (yaml_root_from_ipc_request pf pr (request_for command t cfg))
        ≡ with_cfg_node pf sc addr (request_for command t none) (yaml_map_from_cfg pf pr cfg)
  unfolding yaml_root_to_ipc_request
  request_round_trip command t cfg =
      ap (λ n. request_of pf sc addr (spmap_of n)) (request_document command t cfg)
      ∙ read_back (name_in ipc_commands ipc_command_code (some command)) (threshold_name t)
          (yaml_map_from_cfg pf pr cfg) command t (command_read command) (threshold_back t)
