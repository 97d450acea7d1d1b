-- ===== src/Lid.antt =====
-- src/lid.c: the state of the laptop lid, as libinput reports it. The discovery of the device and the
-- libinput context are input and output; the events that a dispatch delivers are an argument.
use way_displays.Prelude.{Bool, Option, none, some, String, List, [], ◌∷◌}
use way_displays.Enums.{OnOff}

pub record Lid : Type 0 where
  pub closed : Bool
  pub device_path : Option String

-- A switch of the lid to on (closed) or off, or an event of another type.
pub data LidEvent : Type 0 where
  switch_toggle : Bool → LidEvent
  other_event : LidEvent

-- One round of the loop of `g_lid_update`: the lid is watched only where monitoring is ON.
abbrev pub lid_event : Option OnOff → Lid → LidEvent → Lid
lid_event (some OnOff.on) lid (switch_toggle on) = record lid { closed = on }
lid_event _ lid _ = lid

unfoldable pub lid_events : Option OnOff → Lid → List LidEvent → Lid
lid_events monitor lid [] = lid
lid_events monitor lid (e ∷ es) = lid_events monitor (lid_event monitor lid e) es

-- There is no lid, `none`, where no device was found or monitoring was off at the start.
unfoldable pub g_lid_update : Option OnOff → Option Lid → List LidEvent → Option Lid
unfolding lid_events
g_lid_update monitor none events = none
g_lid_update monitor (some lid) events = some (lid_events monitor lid events)
