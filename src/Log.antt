-- ===== src/Log.antt =====
-- src/log.c: which lines are printed and which are captured. The format of a line, its colour and its time
-- are not modelled. A list of captured lines is named by its address.
pub mod Captured
use way_displays.Prelude.{
  ℕ, ◌==◌, ltb, leb, Bool, true, false, ◌||◌, not, Option, none, some, String, List, [], ◌∷◌, ◌++◌,
  map, if◌then◌else◌, first, is_some, select,
}
use way_displays.Enums.{LogThreshold, log_threshold_code}

pub record LogCapLine : Type 0 where
  pub threshold : LogThreshold
  pub line : String

-- A line that was printed: on which stream, and whether it is labelled with its threshold.
pub record Printed : Type 0 where
  pub stderr : Bool
  pub labelled : Bool
  pub line : String

-- `active`, `log_cap_lines_active` with the lines, and what was printed, latest last.
pub record Log : Type 0 where
  pub threshold : LogThreshold
  pub threshold_cli : Bool
  pub prefix : Bool
  pub suppressing : Bool
  pub capturing : List (ℕ × List LogCapLine)
  pub printed : List Printed

unfoldable pub log_init : Log
log_init = record {
  threshold = LogThreshold.info;
  threshold_cli = false;
  prefix = false;
  suppressing = false;
  capturing = [];
  printed = [];
}

abbrev below : LogThreshold → LogThreshold → Bool
below a b = ltb (log_threshold_code a) (log_threshold_code b)

abbrev has_label : LogThreshold → Bool
has_label t = leb (log_threshold_code LogThreshold.warning) (log_threshold_code t)

abbrev is_empty : String → Bool
is_empty String.[] = true
is_empty (String.◌∷◌ c s) = false

unfoldable pub print_line : Log → LogThreshold → String → Log
print_line log t l = if below t log.threshold || log.suppressing then log else record log {
  printed =
      log.printed
      ++ record {
        stderr = not (below t LogThreshold.error);
        labelled = if is_empty l then false else has_label t;
        line = l;
      }
        ∷ [];
}

abbrev pub append_to : LogCapLine → ℕ × List LogCapLine → ℕ × List LogCapLine
append_to c (addr, lines) = (addr, lines ++ c ∷ [])

-- Every active list captures the line.
unfoldable pub capture_line : Log → LogThreshold → String → Log
capture_line log t l = record log {
  capturing = map (append_to (record { threshold = t; line = l })) log.capturing;
}

-- Printed as the threshold says, captured whatever it says.
unfoldable pub log_line : Log → LogThreshold → String → Log
unfolding print_line capture_line
log_line log t l = capture_line (print_line log t l) t l

-- A threshold of the command line is changed by one of the command line only.
unfoldable pub log_set_threshold : Log → Option LogThreshold → Bool → Log
log_set_threshold log none cli = log
log_set_threshold log (some t) cli =
    if not log.threshold_cli || cli then record log { threshold = t; threshold_cli = cli } else log

unfoldable pub log_set_prefix : Log → Bool → Log
log_set_prefix log prefix = record log { prefix = prefix }

unfoldable pub log_suppress_start : Log → Log
log_suppress_start log = record log { suppressing = true }

unfoldable pub log_suppress_stop : Log → Log
log_suppress_stop log = record log { suppressing = false }

unfoldable pub log_cap_lines_playback : Log → List LogCapLine → Log
unfolding print_line
log_cap_lines_playback log [] = log
log_cap_lines_playback log (c ∷ cs) = log_cap_lines_playback (print_line log c.threshold c.line) cs

-- The list at `addr`, with the lines that it has, is active.
unfoldable pub log_cap_lines_start : Log → ℕ → List LogCapLine → Log
log_cap_lines_start log addr lines =
    if is_some (first (λ e. e.0 == addr) log.capturing)
    then log
    else record log { capturing = log.capturing ++ (addr, lines) ∷ [] }

unfoldable pub log_cap_lines_stop : Log → ℕ → Log
log_cap_lines_stop log addr = record log {
  capturing = select (λ e. not (e.0 == addr)) log.capturing;
}
