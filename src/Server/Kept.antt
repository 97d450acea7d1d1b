-- ===== src/Server/Kept.antt =====
-- What one turn of the loop of src/server.c leaves alone of the globals before `act` runs.
use way_displays.Prelude.{
  ℕ, ◌≡◌, refl, sym, subst, Bool, true, false, Option, none, some, List, pick,
}
use way_displays.Enums.{IpcCommand}
use way_displays.Log.{Log, LogCapLine}
use way_displays.Platform.{Platform}
use way_displays.Cfg.{Cfg}
use way_displays.Cfg.Merge.{cfg_merge}
use way_displays.Cfg.File.{
  FileSystem, CfgFile, g_cfg_file_reload, FileOutcome, stays, exits, g_cfg_file_write,
}
use way_displays.Head.{Head}
use way_displays.Lid.{LidEvent, Lid}
use way_displays.Head.Modes.{heads_reapply}
use way_displays.World.{World}
use way_displays.Ipc.{
  IpcRequest, IpcOperation, Response, Delivery, Incoming, ipc_receive_request, ipc_request_filter,
  ipc_send_operation,
}
use way_displays.Server.{
  Server, Progress, goes_on, ends, crashes, ◌>>=◌, after_send, notified, refused,
  notify_ipc_operation, handle_ipc_in_progress,
}
use way_displays.Server.Process.{
  Processed, processed, ended, received_by, with_heads, merged_into, written_to, process_by, reply,
  handle_received, receive_ipc_request, started, rejected, g_cfg_process_ipc_request,
}
use way_displays.Server.Turn.{
  Signal, Input, signalled, cfg_dir_changed, lid_changed, client_message, until_act,
}

abbrev pub Holds : {Real : Type 0} → (Server Real → Type 0) → Progress Real → Type 0
Holds P (goes_on s) = P s
Holds P (ends status) = Unit
Holds P crashes = Unit

pub Holds-bind :
    {Real : Type 0} (P Q : Server Real → Type 0) (p : Progress Real)
    (f : Server Real → Progress Real)
    → Holds P p
    → ((s : Server Real) → P s → Holds Q (f s))
    → Holds Q (p >>= f)
Holds-bind P Q (goes_on s) f h k = k s h
Holds-bind P Q (ends status) f h k = tt
Holds-bind P Q crashes f h k = tt

module _ {Real : Type 0} where
  pub after_send-world :
      (s : Server Real) (r : IpcOperation Real × Option Response) → (after_send s r).world ≡ s.world
  after_send-world s (o, r) =
      pick (λ (t : Server Real). t.world ≡ s.world) o.done _ _ (λ e. refl) (λ e. refl)

  notified-world :
      (d : Delivery) (s : Server Real) (o : Option (IpcOperation Real))
      → (notified d s o).world ≡ s.world
  notified-world d s none = refl
  notified-world d s (some o) = after_send-world s (ipc_send_operation d o)

  pub notify-world : (d : Delivery) (s : Server Real) → (notify_ipc_operation d s).world ≡ s.world
  unfolding notify_ipc_operation
  notify-world d s = notified-world d s s.operation

  refused-world :
      (d : Delivery) (s : Server Real) (r : Option (IpcRequest Real))
      → (refused d s r).world ≡ s.world
  refused-world d s none = refl
  refused-world d s (some request) = refl

  pub in_progress-world :
      (incoming : Incoming Real) (d : Delivery) (s : Server Real)
      → (handle_ipc_in_progress incoming d s).world ≡ s.world
  unfolding handle_ipc_in_progress
  in_progress-world incoming d s = refused-world d s (ipc_receive_request incoming)

-- A statement about the globals that a new configuration, a reload, other heads and the lid leave alone.
pub record IsKept (pf : Platform) (P : World pf.Real → Type 0) : Type 0 where
  pub by_merge :
      (w : World pf.Real) (req : Option (Cfg pf.Real)) (command : IpcCommand) (m : Cfg pf.Real)
      → cfg_merge pf w.cfg req command ≡ some m
      → P w
      → P (record w { cfg = m })
  pub by_reload :
      (w : World pf.Real) (fs : FileSystem pf.Real) (f : CfgFile) (log : Log)
      → P w
      → P (record w { cfg = (g_cfg_file_reload pf fs f log w.cfg).0 })
  pub by_heads :
      (w : World pf.Real) (heads : List (ℕ × Head))
      → P w
      → P (record w { displ = record w.displ { heads = heads } })
  pub by_lid : (w : World pf.Real) (lid : Option Lid) → P w → P (record w { lid = lid })

module _ (pf : Platform) (P : World pf.Real → Type 0) (kept : IsKept pf P) where
  open pf use {Real}

  abbrev pub Keeps : Server Real → Type 0
  Keeps s = P s.world

  abbrev ProcessedKeeps : Processed Real → Type 0
  ProcessedKeeps (processed s done) = Keeps s
  ProcessedKeeps ended = Unit

  merged-Keeps :
      (s : Server Real) (req : Option (Cfg Real)) (command : IpcCommand) (m : Option (Cfg Real))
      → cfg_merge pf s.world.cfg req command ≡ m
      → Keeps s
      → ProcessedKeeps (merged_into pf s m)
  merged-Keeps s req command none e v = v
  merged-Keeps s req command (some m) e v = kept.by_merge s.world req command m e v

  written-Keeps : (s : Server Real) (o : FileOutcome) → Keeps s → ProcessedKeeps (written_to pf s o)
  written-Keeps s (stays files) v = v
  written-Keeps s exits v = tt

  process_by-Keeps :
      (fs : FileSystem Real) (command : Option IpcCommand) (req : Option (Cfg Real))
      (s : Server Real)
      → Keeps s
      → ProcessedKeeps (process_by pf fs command req s)
  unfolding process_by
  process_by-Keeps fs (some IpcCommand.cfg_del) req s v =
      merged-Keeps s req IpcCommand.cfg_del _ refl v
  process_by-Keeps fs (some IpcCommand.cfg_set) req s v =
      merged-Keeps s req IpcCommand.cfg_set _ refl v
  process_by-Keeps fs (some IpcCommand.cfg_toggle) req s v =
      merged-Keeps s req IpcCommand.cfg_toggle _ refl v
  process_by-Keeps fs (some IpcCommand.cfg_write) req s v =
      written-Keeps s (g_cfg_file_write pf fs s.candidates s.world.cfg s.files) v
  process_by-Keeps fs (some IpcCommand.list) req s v = v
  process_by-Keeps fs (some IpcCommand.reapply) req s v =
      kept.by_heads s.world (heads_reapply pf s.world.displ.heads) v
  process_by-Keeps fs (some IpcCommand.get) req s v = v
  process_by-Keeps fs none req s v = v

  notified-Keeps : (d : Delivery) (s : Server Real) → Keeps s → Keeps (notify_ipc_operation d s)
  notified-Keeps d s v = subst P (sym (notify-world d s)) v

  reply-Keeps :
      (request : IpcRequest Real) (lines : List LogCapLine) (d : Delivery) (p : Processed Real)
      → ProcessedKeeps p
      → Holds Keeps (reply pf request lines d p)
  reply-Keeps request lines d (processed s done) v =
      notified-Keeps d (record s { operation = some (started pf request lines done) }) v
  reply-Keeps request lines d ended v = tt

  received-Keeps :
      (fs : FileSystem Real) (request : Option (IpcRequest Real)) (lines : List LogCapLine)
      (d : Delivery) (s : Server Real)
      → Keeps s
      → Holds Keeps (handle_received pf fs request lines d s)
  unfolding g_cfg_process_ipc_request
  received-Keeps fs none lines d s v = v
  received-Keeps fs (some request) lines d s v =
      let (heads, filtered) = ipc_request_filter pf s.world.cfg s.world.displ.heads request in
      pick (Holds Keeps) request.bad _ _
        (λ e. notified-Keeps d (record s { operation = some (rejected pf request lines) }) v)
        (λ e.
          reply-Keeps filtered lines d
            (process_by pf fs filtered.command filtered.cfg (with_heads s heads))
            (process_by-Keeps fs filtered.command filtered.cfg (with_heads s heads)
              (kept.by_heads s.world heads v)))

  received_by-Keeps :
      (fs : FileSystem Real) (incoming : Incoming Real) (lines : List LogCapLine) (d : Delivery)
      (s : Server Real) (o : Option (IpcOperation Real))
      → Keeps s
      → Holds Keeps (received_by pf fs incoming lines d s o)
  received_by-Keeps fs incoming lines d s (some o) v =
      subst P (sym (in_progress-world incoming d s)) v
  received_by-Keeps fs incoming lines d s none v =
      received-Keeps fs (ipc_receive_request incoming) lines d s v

  receive-Keeps :
      (fs : FileSystem Real) (incoming : Incoming Real) (lines : List LogCapLine) (d : Delivery)
      (s : Server Real)
      → Keeps s
      → Holds Keeps (receive_ipc_request pf fs incoming lines d s)
  unfolding receive_ipc_request
  receive-Keeps fs incoming lines d s v = received_by-Keeps fs incoming lines d s s.operation v

  message-Keeps :
      (i : Input Real) (m : Option (Incoming Real)) (s : Server Real)
      → Keeps s
      → Holds Keeps (client_message pf i m s)
  message-Keeps i none s v = v
  message-Keeps i (some incoming) s v = receive-Keeps i.fs incoming i.request_lines i.answer s v

  cfg_dir-Keeps :
      (fs : FileSystem Real) (changed : Bool) (s : Server Real)
      → Keeps s
      → Keeps (cfg_dir_changed pf fs changed s)
  unfolding cfg_dir_changed
  cfg_dir-Keeps fs false s v = v
  cfg_dir-Keeps fs true s v =
      pick Keeps s.files.file.written _ _ (λ e. v)
        (λ e. kept.by_reload s.world fs s.files.file s.log v)

  lid-Keeps : (l : Option (List LidEvent)) (s : Server Real) → Keeps s → Keeps (lid_changed pf l s)
  unfolding lid_changed
  lid-Keeps none s v = v
  lid-Keeps (some events) s v = kept.by_lid s.world _ v

  pub signalled-Keeps :
      (signal : Option Signal) (s : Server Real) → Keeps s → Holds Keeps (signalled pf signal s)
  signalled-Keeps none s v = v
  signalled-Keeps (some Signal.sigpipe) s v = v
  signalled-Keeps (some Signal.sigint) s v = tt
  signalled-Keeps (some Signal.sigquit) s v = tt
  signalled-Keeps (some Signal.sigterm) s v = tt

  -- What follows the dispatch, up to `act`.
  pub until_act-Keeps :
      (i : Input Real) (s : Server Real) → Keeps s → Holds Keeps (until_act pf i s)
  unfolding until_act
  until_act-Keeps i s v =
      message-Keeps i i.incoming _
        (lid-Keeps i.lid_events _ (cfg_dir-Keeps i.fs i.cfg_file_modified s v))
