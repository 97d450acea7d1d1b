-- ===== src/Examples/ServerTests.antt =====
-- The theorems on the daemon, where the compositor cancels a change for the last time while a client asks
-- for the list of the displays.
use way_displays.Prelude.{◌≡◌, refl, arith, inl, inr, ℤ, pos, false, none, some, [], ◌∷◌}
use way_displays.Enums.{DisplState, IpcCommand, LogThreshold}
use way_displays.Cfg.Validate.{IsValid, row_middle}
use way_displays.Log.{log_init}
use way_displays.Cfg.File.{FileSystem, no_file}
use way_displays.Displ.Listeners.{ended}
use way_displays.World.{World, create_configuration, apply}
use way_displays.Ipc.{delivered, unmarshalled, not_unmarshalled, ipc_request_init}
use way_displays.Server.{Server, Progress, goes_on, ends, crashes}
use way_displays.Server.Turn.{Input, quiet_input, turn}
use way_displays.Server.Process.{receive_ipc_request}
use way_displays.Server.Protocol.{Steps}
use way_displays.Server.View.{view}
use way_displays.Server.Refines.{turn-Steps}
use way_displays.Server.Invariant.{IsSettled, turn-IsSettled}
use way_displays.Server.Unreadable.{mistaken, unreadable_to_descriptor_0}
use way_displays.Examples.Concrete.{desk, world, displ, cfg}

abbrev no_files : FileSystem ℤ
no_files = record {
  fs_canonical_path = λ p. none;
  readable = λ p. false;
  xdg_config_home = none;
  home = none;
  root_etc = "/etc";
  dirname = λ p. p;
  basename = λ p. p;
  fs_mkdir_p = λ p. false;
  fs_file_write = λ p c m. false;
  inotify_add_watch = λ p. false;
  load = λ p. none;
  scanner = record {
    scan_int = λ t. none;
    scan_float = λ t. none;
    round = λ r. r;
    size_of = λ r. 1000;
    lround = λ r. r;
  };
  mode_place = λ t. 600;
  printer = record { show_int = λ z. "0"; show_float = λ r. "1" };
  emit = λ d. none;
}

abbrev asked : World ℤ
asked = record world {
  requests = create_configuration 39 ∷ apply ∷ [];
  cancellation_retries = 5;
  displ = record displ { state = DisplState.outstanding };
}

abbrev daemon : Server ℤ
daemon = record {
  world = asked;
  operation = none;
  files = record { file = no_file; watched = none };
  log = log_init;
  candidates = [];
  sent = [];
  closed = [];
}

abbrev busy_turn : Input ℤ
busy_turn = record (quiet_input no_files) {
  events = ended DisplState.cancelled ∷ [];
  incoming = some (unmarshalled (pos 9) (ipc_request_init (some IpcCommand.list)));
  request_lines = record { threshold = LogThreshold.info; line = "" } ∷ [];
}

-- The daemon that goes on.
abbrev going_on : Progress ℤ → Server ℤ
going_on (goes_on s) = s
going_on _ = daemon

abbrev later : Server ℤ
later = going_on (turn desk busy_turn daemon)

-- The daemon does go on.
goes : turn desk busy_turn daemon ≡ goes_on later
unfolding turn receive_ipc_request way_displays.Ipc.ipc_receive_request
    way_displays.Ipc.ipc_request_filter way_displays.Act.act
    way_displays.Server.notify_ipc_operation way_displays.Ipc.ipc_send_operation
    way_displays.Displ.Listeners.displ_event
goes = refl

turn-Steps_example : Steps (view 0 asked) (view 1 later.world)
turn-Steps_example = turn-Steps desk 0 busy_turn daemon later ((refl, inr (inr refl)), tt) goes

cfg_IsValid : IsValid cfg
cfg_IsValid = record {
  aligned = row_middle;
  dpi_above = omega arith;
  usable = (
    record {
      width_ok = inr (omega arith);
      height_ok = inr (omega arith);
      refresh_ok = inl refl;
      resolution_ok = λ a b. (omega arith, omega arith);
    },
    tt,
  );
}

turn-IsSettled_example : IsSettled later
turn-IsSettled_example = turn-IsSettled desk busy_turn daemon later cfg_IsValid goes

unreadable_to_descriptor_0_example :
    receive_ipc_request desk no_files (not_unmarshalled (pos 9)) [] delivered daemon
    ≡ goes_on (record daemon { sent = mistaken desk [] ∷ []; closed = pos 0 ∷ [] })
unreadable_to_descriptor_0_example = unreadable_to_descriptor_0 desk no_files (pos 9) [] daemon refl
