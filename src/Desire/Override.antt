-- ===== src/Desire/Override.antt =====
-- What an override of src/head.c makes `desire_enabled` of src/desire.c decide.
use way_displays.Prelude.{◌≡◌, Bool, true, false, not, arith}
use way_displays.Enums.{IpcCommand, ManualOverride}
use way_displays.Head.{Head}
use way_displays.Head.Override.{head_apply_disabled_toggle, override_by}
use way_displays.Desire.{reset_override, decided}

-- The decision of `desire_enabled`, where `enabled` is what the configuration says.
abbrev pub decision : Bool → Head → Bool
decision enabled h = decided enabled (reset_override enabled h.overrided_enabled)

-- A head without an override is turned, by a toggle, from what it is to the opposite, whatever the
-- configuration says of it; a delete turns it on where it is off, and a set turns it off where it is
-- on.
pub override-decision :
    (enabled : Bool) (h : Head)
    → h.overrided_enabled ≡ ManualOverride.no_override
    → (decision enabled (override_by IpcCommand.cfg_toggle h) ≡ not h.cur.enabled)
      × (decision enabled
            (override_by IpcCommand.cfg_del (record h { cur = record h.cur { enabled = false } }))
          ≡ true)
      × (decision enabled
            (override_by IpcCommand.cfg_set (record h { cur = record h.cur { enabled = true } }))
          ≡ false)
unfolding override_by head_apply_disabled_toggle
override-decision enabled h e = ground arith
