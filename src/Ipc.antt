-- ===== src/Ipc.antt =====
-- src/ipc.c and inc/ipc.h: requests, the operation that the server works on, and what it sends. The
-- text of the YAML is made by src/yaml, so that a request arrives as what it is read as, and a response
-- leaves as the values that it shows.
pub mod Severity
use way_displays.Prelude.{
  ℕ, ltb, not, select, ℤ, pos, Bool, true, false, Option, none, some, String, List, [], ◌∷◌,
  if◌then◌else◌,
}
use way_displays.Enums.{IpcCommand, IpcRc, LogThreshold, ipc_rc_code, log_threshold_code}
use way_displays.Log.{LogCapLine}
use way_displays.Platform.{Platform}
use way_displays.Cfg.{Cfg, CfgDisabled}
use way_displays.Cfg.Clashes.{cfg_disabled_filter_conditional_clashes}
use way_displays.Head.{Head}
use way_displays.Head.Override.{head_override_ipc_disableds}

-- `command` is NULL where C has 0.
pub record IpcRequest (Real : Type 0) : Type 0 where
  pub command : Option IpcCommand
  pub log_threshold : Option LogThreshold
  pub cfg : Option (Cfg Real)
  pub yaml : Bool
  pub socket_client : ℤ
  pub bad : Bool

pub record IpcOperation (Real : Type 0) : Type 0 where
  pub request : Option (IpcRequest Real)
  pub socket_client : ℤ
  pub done : Bool
  pub rc : ℕ
  pub send_state : Bool
  pub log_cap_lines : List LogCapLine

-- What the client reads: DONE and RC, whether CFG and STATE are there, and the MESSAGES.
pub record Response : Type 0 where
  pub socket : ℤ
  pub done : Bool
  pub rc : ℕ
  pub state : Bool
  pub messages : List LogCapLine

unfoldable pub ipc_operation_init : {Real : Type 0} → IpcOperation Real
ipc_operation_init = record {
  request = none;
  socket_client = pos 0;
  done = false;
  rc = 0;
  send_state = false;
  log_cap_lines = [];
}

unfoldable pub ipc_request_init : {Real : Type 0} → Option IpcCommand → IpcRequest Real
ipc_request_init command = record {
  command = command;
  log_threshold = none;
  cfg = none;
  yaml = false;
  socket_client = pos 0;
  bad = false;
}

-- One line of the log.
unfoldable pub raise_rc : ℕ → LogThreshold → ℕ
raise_rc rc LogThreshold.warning =
    if ltb rc (ipc_rc_code IpcRc.ipc_warn) then ipc_rc_code IpcRc.ipc_warn else rc
raise_rc rc LogThreshold.error =
    if ltb rc (ipc_rc_code IpcRc.ipc_error) then ipc_rc_code IpcRc.ipc_error else rc
raise_rc rc _ = rc

unfoldable pub rc_after : ℕ → List LogCapLine → ℕ
unfolding raise_rc
rc_after rc [] = rc
rc_after rc (c ∷ cs) = rc_after (raise_rc rc c.threshold) cs

unfoldable pub ipc_operation_update_rc : {Real : Type 0} → IpcOperation Real → IpcOperation Real
unfolding rc_after
ipc_operation_update_rc o = record o { rc = rc_after o.rc o.log_cap_lines }

-- How a sending ends: it is delivered, or its YAML cannot be made, or the write fails.
pub data Delivery : Type 0 where
  delivered not_marshalled not_written : Delivery

-- The lines from the threshold of the request on: `yaml_seq_from_messages` of src/yaml/marshal-types.c
-- leaves out the others. Without a threshold all are shown.
abbrev pub lines_from : Option LogThreshold → List LogCapLine → List LogCapLine
lines_from none lines = lines
lines_from (some t) lines =
    select (λ c. not (ltb (log_threshold_code c.threshold) (log_threshold_code t))) lines

abbrev pub threshold_of : {Real : Type 0} → Option (IpcRequest Real) → Option LogThreshold
threshold_of none = none
threshold_of (some request) = request.log_threshold

abbrev pub response_of : {Real : Type 0} → IpcOperation Real → Response
response_of o = record {
  socket = o.socket_client;
  done = o.done;
  rc = o.rc;
  state = o.send_state;
  messages = lines_from (threshold_of o.request) o.log_cap_lines;
}

-- The operation after the sending, and the response where one is delivered. An operation whose client
-- cannot be answered is done.
abbrev pub sent_by :
    {Real : Type 0} → Delivery → IpcOperation Real → IpcOperation Real × Option Response
sent_by delivered o = (record o { log_cap_lines = [] }, some (response_of o))
sent_by not_marshalled o = (record o { log_cap_lines = []; done = true }, none)
sent_by not_written o = (record o { log_cap_lines = []; done = true }, none)

unfoldable pub ipc_send_operation :
    {Real : Type 0} → Delivery → IpcOperation Real → IpcOperation Real × Option Response
unfolding ipc_operation_update_rc
ipc_send_operation d o = sent_by d (ipc_operation_update_rc o)

-- A message of a client: `socket_accept` gives its socket, `socket_read` reads all of it or fails, and
-- `yaml_unmarshal_str` makes a request of it or fails.
pub data Incoming (Real : Type 0) : Type 0 where
  not_accepted : Incoming Real
  not_read : ℤ → Incoming Real
  not_unmarshalled : ℤ → Incoming Real
  unmarshalled : ℤ → IpcRequest Real → Incoming Real

-- The request, or NULL. (The socket is closed where the message cannot be read.)
unfoldable pub ipc_receive_request : {Real : Type 0} → Incoming Real → Option (IpcRequest Real)
unfolding ipc_request_init
ipc_receive_request not_accepted = none
ipc_receive_request (not_read socket) = none
ipc_receive_request (not_unmarshalled socket) = some (ipc_request_init none)
ipc_receive_request (unmarshalled socket request) = some (record request { socket_client = socket })

module _ (pf : Platform) where
  open pf use {lib, Real}
  open lib use {sp}

  -- `head_override_ipc_disableds`, for a command that may be 0, which overrides nothing.
  abbrev override_head : Cfg Real → IpcRequest Real → Head → Head × List (String × CfgDisabled)
  override_head cfg request head = elim request.command [
    | none ↦ (head, (head_override_ipc_disableds pf cfg request.cfg IpcCommand.get head).1)
    | some command ↦ head_override_ipc_disableds pf cfg request.cfg command head
  ]

  -- The loop over the heads, and all that was overridden.
  unfoldable pub override_heads :
      Cfg Real
      → IpcRequest Real
      → List (ℕ × Head)
      → List (String × CfgDisabled)
      → List (ℕ × Head) × List (String × CfgDisabled)
  override_heads cfg request [] overridden = ([], overridden)
  override_heads cfg request ((z, head) ∷ rest) overridden =
      let (head', of_head) = override_head cfg request head in
      let (rest', all) = override_heads cfg request rest (sp.put_all overridden of_head) in
      ((z, head') ∷ rest', all)

  -- The heads, with their overrides, and the request without the entries that were applied as such
  -- and without those that clash with conditions.
  unfoldable pub ipc_request_filter :
      Cfg Real → List (ℕ × Head) → IpcRequest Real → List (ℕ × Head) × IpcRequest Real
  unfolding override_heads
  ipc_request_filter cfg heads request = elim request.cfg [
    | none ↦ (heads, request)
    | some req ↦
        let (heads', overridden) = override_heads cfg request heads [] in
        (
          heads',
          record request {
            cfg = some (record req {
              disableds =
                  cfg_disabled_filter_conditional_clashes pf cfg.disableds
                    (sp.remove_in req.disableds overridden);
            });
          },
        )
  ]
