-- ===== src/Log/Captured.antt =====
-- What the lists of src/log.c capture, over any sequence of its calls.
use way_displays.Prelude.{
  ℕ, ◌≡◌, refl, arith, ap, ◌∙◌, ◌==◌, Bool, not, Option, none, some, String, List, [], ◌∷◌, ◌++◌,
  map, first, is_some, select, or_else, if◌then◌else◌,
}
use way_displays.Enums.{LogThreshold}
use way_displays.Log.{
  Log, LogCapLine, append_to, print_line, capture_line, log_line, log_set_threshold, log_set_prefix,
  log_suppress_start, log_suppress_stop, log_cap_lines_playback, log_cap_lines_start,
  log_cap_lines_stop,
}

pub data LogCall : Type 0 where
  line : LogThreshold → String → LogCall
  set_threshold : Option LogThreshold → Bool → LogCall
  set_prefix : Bool → LogCall
  suppress_start : LogCall
  suppress_stop : LogCall
  playback : List LogCapLine → LogCall
  start : ℕ → List LogCapLine → LogCall
  stop : ℕ → LogCall

abbrev call : Log → LogCall → Log
call log (LogCall.line t l) = log_line log t l
call log (LogCall.set_threshold t cli) = log_set_threshold log t cli
call log (LogCall.set_prefix prefix) = log_set_prefix log prefix
call log LogCall.suppress_start = log_suppress_start log
call log LogCall.suppress_stop = log_suppress_stop log
call log (LogCall.playback cs) = log_cap_lines_playback log cs
call log (LogCall.start addr ls) = log_cap_lines_start log addr ls
call log (LogCall.stop addr) = log_cap_lines_stop log addr

abbrev pub calls : Log → List LogCall → Log
calls log [] = log
calls log (c ∷ cs) = calls (call log c) cs

-- The lines of the list at an address, where it is active.
abbrev lines_at : ℕ → List (ℕ × List LogCapLine) → Option (List LogCapLine)
lines_at addr [] = none
lines_at addr ((a, ls) ∷ rest) = if a == addr then some ls else lines_at addr rest

abbrev pub captured : ℕ → Log → Option (List LogCapLine)
captured addr log = lines_at addr log.capturing

abbrev extended : LogCapLine → Option (List LogCapLine) → Option (List LogCapLine)
extended c none = none
extended c (some ls) = some (ls ++ c ∷ [])

-- One list, as if it were the only one: it takes each line as long as it is active.
abbrev watch : ℕ → Option (List LogCapLine) → LogCall → Option (List LogCapLine)
watch addr o (LogCall.line t l) = extended (record { threshold = t; line = l }) o
watch addr o (LogCall.set_threshold t cli) = o
watch addr o (LogCall.set_prefix prefix) = o
watch addr o LogCall.suppress_start = o
watch addr o LogCall.suppress_stop = o
watch addr o (LogCall.playback cs) = o
watch addr o (LogCall.start a ls) = if a == addr then or_else o (some ls) else o
watch addr o (LogCall.stop a) = if a == addr then none else o

abbrev pub watched : ℕ → Option (List LogCapLine) → List LogCall → Option (List LogCapLine)
watched addr o [] = o
watched addr o (c ∷ cs) = watched addr (watch addr o c) cs

lines_at-append_to :
    (addr : ℕ) (c : LogCapLine) (lists : List (ℕ × List LogCapLine))
    → lines_at addr (map (append_to c) lists) ≡ extended c (lines_at addr lists)
lines_at-append_to addr c [] = refl
lines_at-append_to addr c ((a, ls) ∷ rest) = ground (arith, lines_at-append_to addr c rest)

lines_at-started :
    (addr a : ℕ) (ls : List LogCapLine) (lists : List (ℕ × List LogCapLine))
    → lines_at addr (lists ++ (a, ls) ∷ [])
      ≡ (if a == addr then or_else (lines_at addr lists) (some ls) else lines_at addr lists)
lines_at-started addr a ls [] = ground arith
lines_at-started addr a ls ((b, ms) ∷ rest) = ground (arith, lines_at-started addr a ls rest)

active-lines_at :
    (addr : ℕ) (lists : List (ℕ × List LogCapLine))
    → is_some (first (λ e. e.0 == addr) lists) ≡ is_some (lines_at addr lists)
active-lines_at addr [] = refl
active-lines_at addr ((a, ls) ∷ rest) = ground (arith, active-lines_at addr rest)

lines_at-stopped :
    (addr a : ℕ) (lists : List (ℕ × List LogCapLine))
    → lines_at addr (select (λ e. not (e.0 == a)) lists)
      ≡ (if a == addr then none else lines_at addr lists)
lines_at-stopped addr a [] = ground arith
lines_at-stopped addr a ((b, ms) ∷ rest) = ground (arith, lines_at-stopped addr a rest)

print_line-capturing :
    (log : Log) (t : LogThreshold) (l : String) → (print_line log t l).capturing ≡ log.capturing
unfolding print_line
print_line-capturing log t l = ground arith

playback-capturing :
    (log : Log) (cs : List LogCapLine) → (log_cap_lines_playback log cs).capturing ≡ log.capturing
unfolding log_cap_lines_playback
playback-capturing log [] = refl
playback-capturing log (c ∷ cs) =
    playback-capturing (print_line log c.threshold c.line) cs
    ∙ print_line-capturing log c.threshold c.line

line-captured :
    (addr : ℕ) (log : Log) (t : LogThreshold) (l : String)
    → captured addr (log_line log t l)
      ≡ extended (record { threshold = t; line = l }) (captured addr log)
unfolding log_line capture_line
line-captured addr log t l =
    lines_at-append_to addr (record { threshold = t; line = l }) (print_line log t l).capturing
    ∙ ap (λ c. extended (record { threshold = t; line = l }) (lines_at addr c))
        (print_line-capturing log t l)

set_threshold-captured :
    (addr : ℕ) (log : Log) (t : Option LogThreshold) (cli : Bool)
    → captured addr (log_set_threshold log t cli) ≡ captured addr log
unfolding log_set_threshold
set_threshold-captured addr log none cli = refl
set_threshold-captured addr log (some t) cli = ground arith

start-captured :
    (addr a : ℕ) (log : Log) (ls : List LogCapLine)
    → captured addr (log_cap_lines_start log a ls)
      ≡ (if a == addr then or_else (captured addr log) (some ls) else captured addr log)
unfolding log_cap_lines_start
start-captured addr a log ls = ground (
  arith,
  lines_at-started addr a ls log.capturing,
  active-lines_at addr log.capturing,
  active-lines_at a log.capturing,
)

call-captured :
    (addr : ℕ) (log : Log) (c : LogCall)
    → captured addr (call log c) ≡ watch addr (captured addr log) c
unfolding log_set_prefix log_suppress_start log_suppress_stop log_cap_lines_stop
call-captured addr log (LogCall.line t l) = line-captured addr log t l
call-captured addr log (LogCall.set_threshold t cli) = set_threshold-captured addr log t cli
call-captured addr log (LogCall.set_prefix prefix) = refl
call-captured addr log LogCall.suppress_start = refl
call-captured addr log LogCall.suppress_stop = refl
call-captured addr log (LogCall.playback cs) = ap (lines_at addr) (playback-capturing log cs)
call-captured addr log (LogCall.start a ls) = start-captured addr a log ls
call-captured addr log (LogCall.stop a) = lines_at-stopped addr a log.capturing

-- Whatever calls are made of the log, each list has captured what it would have captured alone: every line
-- that is logged while it is active, in order, whatever the threshold, the prefix, whether printing is
-- suppressed, what is played back, and the other lists that are started and stopped meanwhile.
pub calls-captured :
    (addr : ℕ) (log : Log) (cs : List LogCall)
    → captured addr (calls log cs) ≡ watched addr (captured addr log) cs
calls-captured addr log [] = refl
calls-captured addr log (c ∷ cs) =
    calls-captured addr (call log c) cs ∙ ap (λ o. watched addr o cs) (call-captured addr log c)
