-- ===== src/Server.antt =====
-- src/server.c: the daemon, which keeps at most one operation of a client in progress, and one turn of its
-- loop. What the outside delivers in a turn is an argument; wl_display_prepare_read and wl_display_flush
-- have no effect on the state modelled.
pub mod Turn
pub mod Kept
pub mod Invariant
pub mod Protocol
pub mod View
pub mod Refines
pub mod Unreadable
pub mod Process
use way_displays.Prelude.{
  ℕ, ℤ, Bool, true, false, Option, none, some, String, List, [], ◌∷◌, ◌++◌, if◌then◌else◌,
}
use way_displays.Enums.{IpcRc, ipc_rc_code}
use way_displays.Cfg.File.{Files}
use way_displays.Log.{Log}
use way_displays.World.{World}
use way_displays.Ipc.{
  IpcRequest, IpcOperation, Response, Delivery, Incoming, ipc_operation_init, ipc_receive_request,
  ipc_send_operation,
}

-- The globals of the daemon: those of `World`, `ipc_operation`, `g_cfg_file` with the watch, and
-- `g_candidates`; what it has sent to clients, and which sockets it has closed, latest last; and `active` of
-- src/log.c, whose threshold a reload sets. (The lines that are captured for a client stand in the
-- operation.)
pub record Server (Real : Type 0) : Type 0 where
  pub world : World Real
  pub operation : Option (IpcOperation Real)
  pub files : Files
  pub candidates : List String
  pub sent : List Response
  pub closed : List ℤ
  pub log : Log

-- The daemon goes on, ends with a status, or has used memory that it freed.
pub data Progress (Real : Type 0) : Type 0 where
  goes_on : Server Real → Progress Real
  ends : ℕ → Progress Real
  crashes : Progress Real

infixl 5 ◌>>=◌
abbrev pub ◌>>=◌ : {Real : Type 0} → Progress Real → (Server Real → Progress Real) → Progress Real
goes_on s >>= f = f s
ends status >>= f = ends status
crashes >>= f = crashes

abbrev pub responses : Option Response → List Response
responses none = []
responses (some r) = r ∷ []

module _ {Real : Type 0} where
  -- The operation that was sent: done, it is destroyed and its socket closed.
  abbrev pub after_send : Server Real → IpcOperation Real × Option Response → Server Real
  after_send s (o, r) =
      let t = record s { sent = s.sent ++ responses r } in
      if o.done
      then record t { closed = t.closed ++ o.socket_client ∷ []; operation = none }
      else record t { operation = some o }

  abbrev pub notified : Delivery → Server Real → Option (IpcOperation Real) → Server Real
  notified d s none = s
  notified d s (some o) = after_send s (ipc_send_operation d o)

  unfoldable pub notify_ipc_operation : Delivery → Server Real → Server Real
  notify_ipc_operation d s = notified d s s.operation

  -- The answer to a request that comes while another is in progress.
  abbrev pub refusal : IpcRequest Real → IpcOperation Real
  refusal request = record ipc_operation_init {
    request = some request;
    socket_client = request.socket_client;
    done = true;
    rc = ipc_rc_code IpcRc.ipc_request_in_progress;
  }

  abbrev pub refused : Delivery → Server Real → Option (IpcRequest Real) → Server Real
  refused d s none = s
  refused d s (some request) = record s {
    sent = s.sent ++ responses (ipc_send_operation d (refusal request)).1;
    closed = s.closed ++ request.socket_client ∷ [];
  }

  -- A request is received whilst another is in progress.
  unfoldable pub handle_ipc_in_progress : Incoming Real → Delivery → Server Real → Server Real
  unfolding ipc_operation_init
  handle_ipc_in_progress incoming d s = refused d s (ipc_receive_request incoming)
