-- ===== src/Examples/MessageTests.antt =====
-- The theorems on the messages of the client and the daemon, for a daemon that first waits for the
-- compositor and then answers with a warning. Numbers are written with one digit.
use Prim.Native.Char.{code}
use Prim.Native.Nat.{ℕ, ◌-◌}
use text.Mathlib.Text.{◌==◌ as str_eq}
use way_displays.Prelude.{
  ◌≡◌, refl, inl, ℤ, pos, negsuc, true, false, Option, none, some, String, List, [], ◌∷◌, ◌++◌,
  ◌==◌, if◌then◌else◌,
}
use way_displays.Prelude.Text.{strlen}
use way_displays.Enums.{IpcCommand, LogThreshold, ManualOverride, ipc_rc_code}
use way_displays.Head.{Head}
use way_displays.Log.{LogCapLine}
use way_displays.Ipc.{
  IpcRequest, IpcOperation, Delivery, delivered, not_written, lines_from, ipc_operation_init,
  ipc_receive_request, ipc_request_filter,
}
use way_displays.Ipc.Severity.{outcome, send_all, all_lines, send_all-rc}
use way_displays.Yaml.{Node, Scanner}
use way_displays.Yaml.Marshal.{Printer}
use way_displays.Yaml.State.{yaml_map_from_head, yaml_root_from_ipc_operation}
use way_displays.Yaml.Heads.{yaml_map_into_heads}
use way_displays.Yaml.Responses.{yaml_root_to_ipc_response_plist}
use way_displays.Yaml.RoundTrip.{request_for}
use way_displays.Cfg.{Cfg}
use way_displays.Cfg.Init.{cfg_init}
use way_displays.Yaml.Writable.{Writable}
use way_displays.Yaml.Restored.{restored_if, request_restored}
use way_displays.Yaml.Replies.{Reads, reply_round_trip}
use way_displays.Yaml.Overrides.{opposite, override_flipped}
use way_displays.Client.{ended, no_response, handle_responses}
use way_displays.Client.Answered.{Sent, asked, FromClient, answered, read_texts, client_answered}
use way_displays.Examples.Concrete.{desk, world, displ, cfg, monitor}

abbrev digit : String → Option ℤ
digit String.[] = none
digit (String.◌∷◌ c rest) = some (pos (code c - b'0'))

abbrev scanner : Scanner ℤ
scanner = record {
  scan_int = digit;
  scan_float = digit;
  round = λ r. r;
  size_of = λ r. 1500;
  lround = λ r. r;
}

-- 0, 1 and 2.
abbrev show : ℤ → String
show (pos n) = if n == 0 then "0" else if n == 1 then "1" else "2"
show (negsuc n) = "2"

abbrev printer : Printer ℤ
printer = record { show_int = show; show_float = show }

abbrev addr : String → ℕ
addr s = strlen s

-- HDMI is to be disabled.
abbrev off : Cfg ℤ
off = record (cfg_init desk) { disableds = ("HDMI", record { conditions = [] }) ∷ [] }

off-Writable : Writable desk scanner printer addr off
unfolding cfg_init way_displays.Enums.Names._name way_displays.Yaml.Primitives.yaml_valid_name_desc
off-Writable = record {
  order = (tt, tt);
  vrr_off = (tt, tt);
  round_to = inl (refl, refl);
  dpi = inl refl;
  low = inl (refl, refl);
  high = inl (refl, refl);
  scale_names = (tt, tt);
  scale_values = tt;
  mode_names = (tt, tt);
  mode_values = tt;
  transform_names = (tt, tt);
  transform_values = tt;
  disabled_values = (((refl, tt), (tt, tt)), ((tt, tt), tt));
}

-- The request as the daemon has it, which accepted descriptor 9.
abbrev accepted : IpcRequest ℤ
accepted =
    record (request_for IpcCommand.cfg_set (some LogThreshold.warning)
      (restored_if desk scanner printer addr (some off))) { socket_client = pos 9 }

abbrev request : IpcRequest ℤ
request = (ipc_request_filter desk cfg displ.heads accepted).1

abbrev lines : List LogCapLine
lines =
    record { threshold = LogThreshold.info; line = "DP-1 Changing:" }
    ∷ record { threshold = LogThreshold.warning; line = "Cannot enable VRR" }
    ∷ []

abbrev waiting : IpcOperation ℤ
waiting = record {
  request = some request;
  socket_client = pos 9;
  done = false;
  rc = 1;
  send_state = true;
  log_cap_lines = [];
}

abbrev warned : IpcOperation ℤ
warned = record waiting { done = true; log_cap_lines = lines }

reply_round_trip_example :
    Reads desk scanner printer addr true (pos 1) (lines_from (some LogThreshold.warning) lines) (
      yaml_root_to_ipc_response_plist desk scanner addr
        (yaml_root_from_ipc_operation desk printer world warned))
unfolding ipc_request_filter
reply_round_trip_example = reply_round_trip desk scanner printer addr world request warned refl refl

-- It was enabled by hand.
abbrev forced : Head
forced = record monitor { overrided_enabled = ManualOverride.override_true }

override_flipped_example :
    (r : Head) × (after : ℕ) × (yaml_map_into_heads desk scanner
        ([], 1)
        (yaml_map_from_head desk printer forced)
      ≡ ([] ++ r ∷ [], after))
    × (r.overrided_enabled ≡ opposite ManualOverride.override_true)
override_flipped_example = override_flipped desk scanner printer forced [] 1

abbrev load : String → Option Node
load t =
    if str_eq t "first"
    then yaml_root_from_ipc_operation desk printer world waiting
    else yaml_root_from_ipc_operation desk printer world warned

abbrev first_sent : Sent ℤ
first_sent = record { world = world; operation = waiting; text = "first" }

abbrev last_sent : Sent ℤ
last_sent = record { world = world; operation = warned; text = "last" }

-- The user asks for YAML.
abbrev for_yaml : IpcRequest ℤ
for_yaml =
    asked desk scanner printer addr load IpcCommand.cfg_set (some LogThreshold.warning) (some off)
      true

made : FromClient desk scanner printer addr load for_yaml request
unfolding ipc_receive_request way_displays.Yaml.Marshal.yaml_root_from_ipc_request
made = (
  request_for IpcCommand.cfg_set (some LogThreshold.warning)
      (restored_if desk scanner printer addr (some off)),
  accepted,
  pos 9,
  cfg,
  displ.heads,
  request_restored desk scanner printer addr IpcCommand.cfg_set (some LogThreshold.warning)
      (some off) off-Writable,
  refl,
  refl,
)

client_answered_example :
    handle_responses desk scanner addr load for_yaml
      (read_texts desk scanner printer addr load (first_sent ∷ []) last_sent (none ∷ []))
    ≡ ended
        (answered desk scanner printer addr load for_yaml no_response (first_sent ∷ []) last_sent)
client_answered_example =
    client_answered desk scanner printer addr load IpcCommand.cfg_set (some LogThreshold.warning)
      (some off) true (first_sent ∷ []) last_sent (none ∷ []) off-Writable
      (((request, refl, made, (refl, refl)), refl), tt) (request, refl, made, (refl, refl)) refl

abbrev logged : LogThreshold → LogCapLine
logged t = record { threshold = t; line = "a line" }

abbrev batches : List (Delivery × List LogCapLine)
batches =
    (delivered, logged LogThreshold.error ∷ logged LogThreshold.info ∷ [])
    ∷ (not_written, logged LogThreshold.warning ∷ [])
    ∷ (delivered, [])
    ∷ []

send_all-rc_example :
    (send_all (ipc_operation_init {Real = ℤ}) batches).rc
    ≡ ipc_rc_code (outcome (all_lines batches))
send_all-rc_example = send_all-rc ℤ batches
