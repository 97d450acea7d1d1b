-- ===== src/Yaml/Replies.antt =====
-- A response of the daemon as the client reads it: what src/yaml/unmarshal-types.c reads of the document
-- that src/yaml/marshal-types.c makes of an operation.
use Prim.Native.Nat.{ℕ}
use way_displays.Prelude.{
  ◌≡◌, refl, ap, ◌∙◌, ℤ, pos, Bool, true, false, Option, none, some, String, List, [], ◌∷◌,
  if◌then◌else◌,
}
use way_displays.Enums.{IpcCommand}
use way_displays.Enums.Names.{_val, val_in}
use way_displays.Enums.Values.{on_off_val}
use way_displays.Cfg.{Cfg}
use way_displays.Yaml.Document.{yaml_map_to_cfg}
use way_displays.Prelude.Text.{strcasecmp}
use way_displays.Log.{LogCapLine}
use way_displays.Platform.{Platform}
use way_displays.World.{World}
use way_displays.Ipc.{IpcRequest, IpcOperation, lines_from}
use way_displays.Yaml.{
  Node, Pairs, scalar, mapping, entries, Scanner, Loaded, refused, loaded, undefined, sequence,
}
use way_displays.Yaml.Primitives.{
  yaml_scalar_to_boolean, yaml_scalar_to_int, yaml_scalar_to_enum, yaml_map_to_spmap, put_pairs,
  yaml_scalar_to_string,
}
use way_displays.Yaml.Marshal.{
  Printer, nodes_of, pairs_of, yaml_map_add_str, yaml_map_add_int, yaml_map_add_node,
  yaml_map_add_bool, yaml_map_from_cfg,
}
use way_displays.Yaml.State.{
  by_command, yaml_root_from_ipc_operation, yaml_map_from_ipc_operation, state_entries,
  yaml_seq_from_messages,
}
use way_displays.Yaml.Responses.{
  bind_loaded, yaml_root_to_ipc_response_plist, yaml_map_into_ipc_responses, IpcResponse,
  if_any_response, response_of, add_response, add_if_map, cfg_of, status_of, messages_of,
}
use way_displays.Yaml.Messages.{messages_read}
use way_displays.Yaml.Lookup.{find_pair, get_pairs}

module _ (pf : Platform) (sc : Scanner pf.Real) (pr : Printer pf.Real) (addr : String → ℕ) where
  open pf use {lib, Real}
  open lib use {sp}

  -- What is read of the pairs of a map.
  abbrev from_pairs : List (Node × Node) → Loaded (List (IpcResponse Real) × ℕ)
  from_pairs es =
      add_response pf sc addr ([], 1) (cfg_of pf sc addr (find_pair es "CFG"))
        (find_pair es "STATE") (messages_of pf (find_pair es "MESSAGES"))
        (status_of pf sc addr (find_pair es "DONE") (find_pair es "RC"))

  map_read :
      (es : List (Node × Node))
      → add_if_map pf sc addr ([], 1) (some (put_pairs pf [] es)) ≡ from_pairs es
  map_read es =
      rw
        (
          get_pairs pf es "CFG",
          get_pairs pf es "STATE",
          get_pairs pf es "MESSAGES",
          get_pairs pf es "DONE",
          get_pairs pf es "RC",
        )
        refl

  -- One response, with this status and these lines.
  abbrev pub Reads : Bool → ℤ → List LogCapLine → Loaded (List (IpcResponse Real)) → Type 0
  Reads done rc lines l =
      (r : IpcResponse Real) × (l ≡ loaded (r ∷ []))
      × (r.done ≡ done)
      × (r.rc ≡ rc)
      × (r.log_cap_lines ≡ lines)

  added :
      (c : Option (Cfg Real)) (state : Option Node) (lines : List LogCapLine)
      (status : Option (Bool × ℤ)) (done : Bool) (rc : ℤ)
      → status ≡ some (done, rc)
      → Reads done rc lines (
          if_any_response pf sc addr
            (add_response pf sc addr ([], 1) (loaded c) state lines status))
  added c state lines status done rc e =
      rw e ((response_of pf sc addr 1 state lines (done, rc) c).0, refl, refl, refl, refl)

  status_read :
      (done : Bool) (rc : ℤ)
      → sc.scan_int (pr.show_int rc) ≡ some rc
      → status_of pf sc addr
          (some (scalar (if done then "TRUE" else "FALSE")))
          (some (scalar (pr.show_int rc)))
        ≡ some (done, rc)
  unfolding yaml_scalar_to_boolean yaml_scalar_to_enum yaml_scalar_to_string yaml_scalar_to_int
      on_off_val _val val_in strcasecmp
  status_read true rc h = rw h refl
  status_read false rc h = rw h refl

  abbrev reply_pairs : World Real → Bool → Bool → Option Node → ℤ → Pairs
  reply_pairs w state done messages rc = pairs_of (
      yaml_map_add_int pf pr (some "RC") rc (
        yaml_map_add_node (some "MESSAGES") messages
          (state_entries pf pr w state (yaml_map_add_bool (some "DONE") done []))))

  abbrev state_found : World Real → Bool → Bool → Option Node → ℤ → Option Node
  state_found w state done messages rc =
      find_pair (entries (reply_pairs w state done messages rc)) "STATE"

  reply_read :
      (w : World Real) (state done : Bool) (messages : Option Node) (rc : ℤ)
      → sc.scan_int (pr.show_int rc) ≡ some rc
      → Reads done rc
          (messages_of pf messages)
          (if_any_response pf sc addr (from_pairs (entries (reply_pairs w state done messages rc))))
  unfolding yaml_map_add_int yaml_map_add_str yaml_map_add_node yaml_map_add_bool yaml_map_from_cfg
      yaml_map_to_cfg
  reply_read w true done none rc h =
      added _ (state_found w true done none rc) _ _ done rc (status_read done rc h)
  reply_read w true done (some n) rc h =
      added _ (state_found w true done (some n) rc) _ _ done rc (status_read done rc h)
  reply_read w false done none rc h =
      added _ (state_found w false done none rc) _ _ done rc (status_read done rc h)
  reply_read w false done (some n) rc h =
      added _ (state_found w false done (some n) rc) _ _ done rc (status_read done rc h)

  bind-loaded : {A : Type 0} (l : Loaded A) → bind_loaded l (λ a. loaded a) ≡ l
  bind-loaded refused = refl
  bind-loaded (loaded a) = refl
  bind-loaded undefined = refl

  sequence_read :
      (ps : Pairs)
      → yaml_root_to_ipc_response_plist pf sc addr (some (sequence (nodes_of (mapping ps ∷ []))))
        ≡ if_any_response pf sc addr (from_pairs (entries ps))
  unfolding yaml_root_to_ipc_response_plist yaml_map_into_ipc_responses yaml_map_to_spmap
  sequence_read ps = ap (if_any_response pf sc addr) (
      bind-loaded (add_if_map pf sc addr ([], 1) (some (put_pairs pf [] (entries ps))))
      ∙ map_read (entries ps))

  root_read :
      (command : Option IpcCommand) (ps : Pairs)
      → yaml_root_to_ipc_response_plist pf sc addr (some (by_command pf pr command (mapping ps)))
        ≡ if_any_response pf sc addr (from_pairs (entries ps))
  unfolding yaml_root_to_ipc_response_plist yaml_map_into_ipc_responses yaml_map_to_spmap
  root_read (some IpcCommand.get) ps = ap (if_any_response pf sc addr) (map_read (entries ps))
  root_read none ps = sequence_read ps
  root_read (some IpcCommand.list) ps = sequence_read ps
  root_read (some IpcCommand.reapply) ps = sequence_read ps
  root_read (some IpcCommand.cfg_set) ps = sequence_read ps
  root_read (some IpcCommand.cfg_del) ps = sequence_read ps
  root_read (some IpcCommand.cfg_write) ps = sequence_read ps
  root_read (some IpcCommand.cfg_toggle) ps = sequence_read ps

  -- Where the return code is read as it is printed, the client reads of the document of an operation
  -- with a request exactly one response: it is done as the operation is, with the return code of the
  -- operation, and has the log lines from the threshold of the request on, in their order.
  pub reply_round_trip :
      (w : World Real) (request : IpcRequest Real) (o : IpcOperation Real)
      → o.request ≡ some request
      → sc.scan_int (pr.show_int (pos o.rc)) ≡ some (pos o.rc)
      → Reads o.done
          (pos o.rc)
          (lines_from request.log_threshold o.log_cap_lines)
          (yaml_root_to_ipc_response_plist pf sc addr (yaml_root_from_ipc_operation pf pr w o))
  unfolding yaml_root_from_ipc_operation yaml_map_from_ipc_operation
  reply_round_trip w request o e h =
      rw
        (
          e,
          root_read request.command (
              reply_pairs w o.send_state o.done
                (yaml_seq_from_messages request.log_threshold o.log_cap_lines) (pos o.rc)),
          ← messages_read pf request.log_threshold o.log_cap_lines,
        )
        (reply_read w o.send_state o.done
          (yaml_seq_from_messages request.log_threshold o.log_cap_lines) (pos o.rc) h)
