-- ===== src/Ipc/Severity.antt =====
-- The return code of an operation: `ipc_operation_update_rc` of src/ipc.c, over all that is sent of it.
use way_displays.Prelude.{
  ℕ, ltb, ◌≡◌, refl, arith, ap, ◌∙◌, sym, Bool, true, false, ◌||◌, List, [], ◌∷◌, ◌++◌,
  if◌then◌else◌,
}
use way_displays.Enums.{LogThreshold, IpcRc, ipc_rc_code}
use way_displays.Log.{LogCapLine}
use way_displays.Ipc.{
  IpcOperation, Delivery, delivered, not_marshalled, not_written, raise_rc, rc_after,
  ipc_operation_init, ipc_send_operation,
}

abbrev is_error : LogThreshold → Bool
is_error LogThreshold.error = true
is_error _ = false

abbrev is_warning : LogThreshold → Bool
is_warning LogThreshold.warning = true
is_warning _ = false

abbrev any_line : (LogThreshold → Bool) → List LogCapLine → Bool
any_line p [] = false
any_line p (c ∷ cs) = p c.threshold || any_line p cs

-- Whether there was an error, or else a warning.
abbrev pub outcome : List LogCapLine → IpcRc
outcome lines =
    if any_line is_error lines
    then IpcRc.ipc_error
    else if any_line is_warning lines
    then IpcRc.ipc_warn
    else IpcRc.ipc_success

abbrev maximum : ℕ → ℕ → ℕ
maximum a b = if ltb a b then b else a

raised :
    (rc : ℕ) (t : LogThreshold) (e w : Bool)
    → maximum (raise_rc rc t) (
        ipc_rc_code
          (if e then IpcRc.ipc_error else if w then IpcRc.ipc_warn else IpcRc.ipc_success))
      ≡ maximum rc (
          ipc_rc_code (
            if is_error t || e
            then IpcRc.ipc_error
            else if is_warning t || w
            then IpcRc.ipc_warn
            else IpcRc.ipc_success))
unfolding raise_rc
raised rc LogThreshold.error e w = ground arith
raised rc LogThreshold.warning e w = ground arith
raised rc LogThreshold.debug e w = refl
raised rc LogThreshold.info e w = refl
raised rc LogThreshold.fatal e w = refl

after-outcome :
    (rc : ℕ) (cs : List LogCapLine) → rc_after rc cs ≡ maximum rc (ipc_rc_code (outcome cs))
unfolding rc_after
after-outcome rc [] = ground arith
after-outcome rc (c ∷ cs) =
    after-outcome (raise_rc rc c.threshold) cs
    ∙ raised rc c.threshold (any_line is_error cs) (any_line is_warning cs)

from_zero : (cs : List LogCapLine) → maximum 0 (ipc_rc_code (outcome cs)) ≡ ipc_rc_code (outcome cs)
from_zero cs = ground arith

after-append : (rc : ℕ) (a b : List LogCapLine) → rc_after rc (a ++ b) ≡ rc_after (rc_after rc a) b
unfolding rc_after
after-append rc [] b = refl
after-append rc (c ∷ a) b = after-append (raise_rc rc c.threshold) a b

abbrev pub all_lines : List (Delivery × List LogCapLine) → List LogCapLine
all_lines [] = []
all_lines ((d, lines) ∷ rest) = lines ++ all_lines rest

module _ {Real : Type 0} where
  -- What is logged before each sending, and how that ends.
  abbrev pub send_all : IpcOperation Real → List (Delivery × List LogCapLine) → IpcOperation Real
  send_all o [] = o
  send_all o ((d, lines) ∷ rest) =
      send_all (ipc_send_operation d (record o { log_cap_lines = lines })).0 rest

  sent-rc :
      (d : Delivery) (o : IpcOperation Real) (lines : List LogCapLine)
      → (ipc_send_operation d (record o { log_cap_lines = lines })).0.rc ≡ rc_after o.rc lines
  unfolding ipc_send_operation
  sent-rc delivered o lines = refl
  sent-rc not_marshalled o lines = refl
  sent-rc not_written o lines = refl

  sent_all-rc :
      (o : IpcOperation Real) (batches : List (Delivery × List LogCapLine))
      → (send_all o batches).rc ≡ rc_after o.rc (all_lines batches)
  unfolding rc_after
  sent_all-rc o [] = refl
  sent_all-rc o ((d, lines) ∷ rest) =
      sent_all-rc (ipc_send_operation d (record o { log_cap_lines = lines })).0 rest
      ∙ ap (λ rc. rc_after rc (all_lines rest)) (sent-rc d o lines)
      ∙ sym (after-append o.rc lines (all_lines rest))

-- The return code of a new operation is, after any number of sendings, however they end, that of the
-- worst line that was logged before any of them: an error, or else a warning, or else success.
pub send_all-rc :
    (Real : Type 0) (batches : List (Delivery × List LogCapLine))
    → (send_all (ipc_operation_init {Real = Real}) batches).rc
      ≡ ipc_rc_code (outcome (all_lines batches))
unfolding ipc_operation_init
send_all-rc Real batches =
    sent_all-rc (ipc_operation_init {Real = Real}) batches
    ∙ after-outcome 0 (all_lines batches)
    ∙ from_zero (all_lines batches)
