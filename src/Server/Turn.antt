-- ===== src/Server/Turn.antt =====
-- One turn of `loop` of src/server.c.
use way_displays.Prelude.{
  ℕ, Bool, true, false, Option, none, some, List, [], ◌∷◌, ◌++◌, not, if◌then◌else◌,
}
use way_displays.Enums.{DisplState}
use way_displays.Log.{Log, LogCapLine}
use way_displays.Platform.{Platform}
use way_displays.Cfg.{Cfg}
use way_displays.Cfg.File.{FileSystem, g_cfg_file_reload}
use way_displays.Lid.{LidEvent, g_lid_update}
use way_displays.Displ.{Displ}
use way_displays.Displ.Listeners.{Event, displ_event}
use way_displays.World.{Outcome, running, exited, fault}
use way_displays.Act.{act}
use way_displays.Ipc.{IpcOperation, Delivery, Incoming}
use way_displays.Server.{Server, Progress, goes_on, ends, crashes, ◌>>=◌, notify_ipc_operation}
use way_displays.Server.Process.{receive_ipc_request, with_cfg}

-- The signals that the daemon subscribes to.
pub data Signal : Type 0 where
  sigint sigquit sigterm sigpipe : Signal

abbrev pub signo : Signal → ℕ
signo Signal.sigint = 2
signo Signal.sigquit = 3
signo Signal.sigterm = 15
signo Signal.sigpipe = 13

-- What happens in a turn: whether poll and the read of the display succeed, the events of the
-- compositor, whether its output manager is still there, a signal, whether the configuration file was
-- modified, the events of the lid, a message of a client with the lines that are logged while it is
-- handled, the lines that are logged by `act`, and how the two sendings end.
pub record Input (Real : Type 0) : Type 0 where
  pub polled : Bool
  pub read : Bool
  pub events : List Event
  pub output_manager : Bool
  pub signal : Option Signal
  pub cfg_file_modified : Bool
  pub lid_events : Option (List LidEvent)
  pub incoming : Option (Incoming Real)
  pub request_lines : List LogCapLine
  pub act_lines : List LogCapLine
  pub answer : Delivery
  pub report : Delivery
  pub fs : FileSystem Real

-- A state where no event or message has come, and all is well.
abbrev pub quiet_input : {Real : Type 0} → FileSystem Real → Input Real
quiet_input fs = record {
  polled = true;
  read = true;
  events = [];
  output_manager = true;
  signal = none;
  cfg_file_modified = false;
  lid_events = none;
  incoming = none;
  request_lines = [];
  act_lines = [];
  answer = Delivery.delivered;
  report = Delivery.delivered;
  fs = fs;
}

module _ (pf : Platform) where
  open pf use {Real}

  unfoldable pub displ_events : Displ → List Event → Displ
  displ_events d [] = d
  displ_events d (e ∷ es) = displ_events (displ_event pf d e) es

  -- The events of the compositor are dispatched to the listeners.
  unfoldable pub dispatch : List Event → Server Real → Server Real
  unfolding displ_events
  dispatch events s = record s {
    world = record s.world { displ = displ_events s.world.displ events };
  }

  -- SIGPIPE is read and ignored.
  abbrev pub signalled : Option Signal → Server Real → Progress Real
  signalled none s = goes_on s
  signalled (some Signal.sigpipe) s = goes_on s
  signalled (some signal) s = ends (signo signal)

  abbrev with_reloaded : Server Real → Cfg Real × Log → Server Real
  with_reloaded s (cfg, log) = record (with_cfg s cfg) { log = log }

  -- The daemon does not reload what it has written itself.
  unfoldable pub cfg_dir_changed : FileSystem Real → Bool → Server Real → Server Real
  cfg_dir_changed fs false s = s
  cfg_dir_changed fs true s =
      if s.files.file.written
      then record s { files = record s.files { file = record s.files.file { written = false } } }
      else with_reloaded s (g_cfg_file_reload pf fs s.files.file s.log s.world.cfg)

  unfoldable pub lid_changed : Option (List LidEvent) → Server Real → Server Real
  lid_changed none s = s
  lid_changed (some events) s = record s {
    world = record s.world { lid = g_lid_update s.world.cfg.laptop_lid_monitor s.world.lid events };
  }

  abbrev pub client_message : Input Real → Option (Incoming Real) → Server Real → Progress Real
  client_message i none s = goes_on s
  client_message i (some incoming) s =
      receive_ipc_request pf i.fs incoming i.request_lines i.answer s

  abbrev pub after_act : Server Real → Outcome Real → Progress Real
  after_act s (running w) = goes_on (record s { world = w })
  after_act s (exited status w) = ends status
  after_act s fault = crashes

  -- `act()`.
  unfoldable pub act_turn : Server Real → Progress Real
  act_turn s = after_act s (act pf s.world)

  abbrev pub is_idle : DisplState → Bool
  is_idle DisplState.idle = true
  is_idle _ = false

  abbrev pub reported : List LogCapLine → DisplState → IpcOperation Real → IpcOperation Real
  reported lines state o = record o {
    done = is_idle state;
    log_cap_lines = o.log_cap_lines ++ lines;
  }

  abbrev pub informed_of :
      List LogCapLine → Delivery → Server Real → Option (IpcOperation Real) → Server Real
  informed_of lines d s none = s
  informed_of lines d s (some o) =
      notify_ipc_operation d (record s { operation = some (reported lines s.world.displ.state o) })

  -- The client is informed; an operation is done when the display is idle.
  unfoldable pub inform : List LogCapLine → Delivery → Server Real → Server Real
  inform lines d s = informed_of lines d s s.operation

  unfoldable pub until_act : Input Real → Server Real → Progress Real
  unfolding cfg_dir_changed lid_changed
  until_act i s =
      client_message i i.incoming
        (lid_changed i.lid_events (cfg_dir_changed i.fs i.cfg_file_modified s))

  -- What follows the dispatch, while the output manager is there and no signal ends the daemon.
  unfoldable pub react : Input Real → Server Real → Progress Real
  unfolding until_act act_turn inform
  react i s = until_act i s >>= act_turn >>= λ t. goes_on (inform i.act_lines i.report t)

  unfoldable pub turn : Input Real → Server Real → Progress Real
  unfolding dispatch react
  turn i s =
      let t = dispatch i.events s in
      if not i.polled
      then ends 1
      else if not i.read
      then ends 0
      else if not i.output_manager
      then ends 0
      else signalled i.signal t >>= react i
