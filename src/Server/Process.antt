-- ===== src/Server/Process.antt =====
-- `receive_ipc_request` of src/server.c and `g_cfg_process_ipc_request` of src/cfg/cfg.c.
use way_displays.Prelude.{ℕ, Bool, true, false, Option, none, some, List, if◌then◌else◌}
use way_displays.Enums.{IpcCommand, IpcRc, ipc_rc_code}
use way_displays.Log.{LogCapLine}
use way_displays.Platform.{Platform}
use way_displays.Cfg.{Cfg}
use way_displays.Cfg.Merge.{cfg_merge}
use way_displays.Cfg.File.{FileSystem, FileOutcome, stays, exits, g_cfg_file_write}
use way_displays.Head.{Head}
use way_displays.Head.Modes.{heads_reapply}
use way_displays.Ipc.{
  IpcRequest, IpcOperation, Delivery, Incoming, ipc_operation_init, ipc_receive_request,
  ipc_request_filter,
}
use way_displays.Server.{
  Server, Progress, goes_on, ends, notify_ipc_operation, handle_ipc_in_progress,
}

-- A request that was processed: the daemon, and whether the operation is complete; or the daemon has
-- ended.
pub data Processed (Real : Type 0) : Type 0 where
  processed : Server Real → Bool → Processed Real
  ended : Processed Real

abbrev pub with_cfg : {Real : Type 0} → Server Real → Cfg Real → Server Real
with_cfg s cfg = record s { world = record s.world { cfg = cfg } }

abbrev pub with_heads : {Real : Type 0} → Server Real → List (ℕ × Head) → Server Real
with_heads s heads = record s {
  world = record s.world { displ = record s.world.displ { heads = heads } };
}

module _ (pf : Platform) where
  open pf use {Real}

  -- The configuration that the merge made, if it made one.
  abbrev pub merged_into : Server Real → Option (Cfg Real) → Processed Real
  merged_into s none = processed s true
  merged_into s (some cfg) = processed (with_cfg s cfg) false

  abbrev pub written_to : Server Real → FileOutcome → Processed Real
  written_to s (stays files) = processed (record s { files = files }) true
  written_to s exits = ended

  -- The `switch` on the command. LIST and GET only print.
  unfoldable pub process_by :
      FileSystem Real → Option IpcCommand → Option (Cfg Real) → Server Real → Processed Real
  process_by fs (some IpcCommand.cfg_del) req s =
      merged_into s (cfg_merge pf s.world.cfg req IpcCommand.cfg_del)
  process_by fs (some IpcCommand.cfg_set) req s =
      merged_into s (cfg_merge pf s.world.cfg req IpcCommand.cfg_set)
  process_by fs (some IpcCommand.cfg_toggle) req s =
      merged_into s (cfg_merge pf s.world.cfg req IpcCommand.cfg_toggle)
  process_by fs (some IpcCommand.cfg_write) req s =
      written_to s (g_cfg_file_write pf fs s.candidates s.world.cfg s.files)
  process_by fs (some IpcCommand.list) req s = processed s true
  process_by fs (some IpcCommand.reapply) req s =
      processed (with_heads s (heads_reapply pf s.world.displ.heads)) false
  process_by fs (some IpcCommand.get) req s = processed s true
  process_by fs none req s = processed s true

  unfoldable pub g_cfg_process_ipc_request :
      FileSystem Real → IpcRequest Real → Server Real → Processed Real
  unfolding process_by
  g_cfg_process_ipc_request fs request s = process_by fs request.command request.cfg s

  -- The operation of a request that is not bad, with the log lines of its processing.
  abbrev pub started : IpcRequest Real → List LogCapLine → Bool → IpcOperation Real
  started request lines done = record ipc_operation_init {
    request = some request;
    socket_client = request.socket_client;
    done = done;
    send_state = true;
    log_cap_lines = lines;
  }

  abbrev pub rejected : IpcRequest Real → List LogCapLine → IpcOperation Real
  rejected request lines = record (started request lines true) {
    rc = ipc_rc_code IpcRc.ipc_bad_request;
    send_state = false;
  }

  abbrev pub reply : IpcRequest Real → List LogCapLine → Delivery → Processed Real → Progress Real
  reply request lines d (processed s done) =
      goes_on (notify_ipc_operation d (record s { operation = some (started request lines done) }))
  reply request lines d ended = ends 1

  -- A request that arrives while no operation is in progress.
  abbrev pub handle_request :
      FileSystem Real → IpcRequest Real → List LogCapLine → Delivery → Server Real → Progress Real
  handle_request fs request lines d s =
      let (heads, filtered) = ipc_request_filter pf s.world.cfg s.world.displ.heads request in
      if request.bad
      then goes_on (notify_ipc_operation d (record s { operation = some (rejected request lines) }))
      else reply filtered lines d (g_cfg_process_ipc_request fs filtered (with_heads s heads))

  abbrev pub handle_received :
      FileSystem Real
      → Option (IpcRequest Real)
      → List LogCapLine
      → Delivery
      → Server Real
      → Progress Real
  handle_received fs none lines d s = goes_on s
  handle_received fs (some request) lines d s = handle_request fs request lines d s

  abbrev pub received_by :
      FileSystem Real
      → Incoming Real
      → List LogCapLine
      → Delivery
      → Server Real
      → Option (IpcOperation Real)
      → Progress Real
  received_by fs incoming lines d s (some o) = goes_on (handle_ipc_in_progress incoming d s)
  received_by fs incoming lines d s none =
      handle_received fs (ipc_receive_request incoming) lines d s

  unfoldable pub receive_ipc_request :
      FileSystem Real → Incoming Real → List LogCapLine → Delivery → Server Real → Progress Real
  unfolding g_cfg_process_ipc_request ipc_operation_init
  receive_ipc_request fs incoming lines d s = received_by fs incoming lines d s s.operation
