-- ===== src/Server/Unreadable.antt =====
-- What `ipc_receive_request` of src/ipc.c and `receive_ipc_request` of src/server.c make of a message that
-- is no request.
use way_displays.Prelude.{◌≡◌, refl, ap, ◌∙◌, ℤ, pos, true, none, List, [], ◌∷◌, ◌++◌}
use way_displays.Log.{LogCapLine}
use way_displays.Platform.{Platform}
use way_displays.Cfg.File.{FileSystem}
use way_displays.Ipc.{
  Response, delivered, not_unmarshalled, rc_after, ipc_receive_request, ipc_request_filter,
  ipc_request_init, ipc_operation_init, ipc_send_operation, ipc_operation_update_rc,
}
use way_displays.Server.{Server, goes_on, notify_ipc_operation}
use way_displays.Server.Process.{
  process_by, g_cfg_process_ipc_request, receive_ipc_request, received_by, handle_received,
}

module _ (pf : Platform) where
  open pf use {Real}

  -- The response that is sent where a message is no request.
  abbrev pub mistaken : List LogCapLine → Response
  mistaken lines = record {
    socket = pos 0;
    done = true;
    rc = rc_after 0 lines;
    state = true;
    messages = lines;
  }

  handled :
      (fs : FileSystem Real) (socket : ℤ) (lines : List LogCapLine) (s : Server Real)
      → handle_received pf fs (ipc_receive_request (not_unmarshalled socket)) lines delivered s
        ≡ goes_on (record s {
          operation = none;
          sent = s.sent ++ mistaken lines ∷ [];
          closed = s.closed ++ pos 0 ∷ [];
        })
  unfolding ipc_receive_request ipc_request_init ipc_request_filter g_cfg_process_ipc_request
      process_by ipc_operation_init notify_ipc_operation ipc_send_operation ipc_operation_update_rc
  handled fs socket lines s = refl

  -- Where no operation is in progress and a client sends a message that is no request, the daemon
  -- handles it as a request to show its state: it sends the state, with the return code of the log
  -- lines, to descriptor 0 and closes that, whatever the socket of the client is.
  pub unreadable_to_descriptor_0 :
      (fs : FileSystem Real) (socket : ℤ) (lines : List LogCapLine) (s : Server Real)
      → s.operation ≡ none
      → receive_ipc_request pf fs (not_unmarshalled socket) lines delivered s
        ≡ goes_on (record s {
          operation = none;
          sent = s.sent ++ mistaken lines ∷ [];
          closed = s.closed ++ pos 0 ∷ [];
        })
  unfolding receive_ipc_request
  unreadable_to_descriptor_0 fs socket lines s e =
      ap (received_by pf fs (not_unmarshalled socket) lines delivered s) e
      ∙ handled fs socket lines s
