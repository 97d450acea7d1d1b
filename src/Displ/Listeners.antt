-- ===== src/Displ/Listeners.antt =====
-- The listeners of src/listener: how the events of the compositor change the display and its heads.
-- `zwlr_output_head.c` and `zwlr_output_mode.c` act on a head through its pointer, which the listener
-- holds; `zwlr_output_configuration.c` and `zwlr_output_manager.c` act on the display.
use way_displays.Prelude.{
  ℕ, ◌==◌, ℤ, eqb_ℤ, pos, not, Option, none, some, String, List, [], ◌∷◌, map, if◌then◌else◌,
}
use way_displays.Enums.{DisplState}
use way_displays.Platform.{Platform}
use way_displays.Mode.{Mode, mode_init}
use way_displays.Head.{Head, AdaptiveSync}
use way_displays.Head.Modes.{head_set_description, head_set_mode_pref, head_release_mode}
use way_displays.Displ.{Displ, update_head, displ_add_head, displ_finished_head}

-- Events of a head and of its modes. The mode event carries the address of the new struct.
pub data HeadEvent : Type 0 where
  name make model serial_number : String → HeadEvent
  description : Option String → HeadEvent
  physical_size position : ℤ → ℤ → HeadEvent
  mode : ℕ → ℕ → HeadEvent
  enabled : ℤ → HeadEvent
  current_mode : ℕ → HeadEvent
  transform : ℕ → HeadEvent
  scale : ℤ → HeadEvent
  adaptive_sync : AdaptiveSync → HeadEvent
  mode_size : ℕ → ℤ → ℤ → HeadEvent
  mode_refresh : ℕ → ℤ → HeadEvent
  mode_preferred mode_finished : ℕ → HeadEvent

-- The change of a mode through the pointer that the map holds.
unfoldable pub update_mode : List (ℕ × Mode) → ℕ → (Mode → Mode) → List (ℕ × Mode)
update_mode [] z f = []
update_mode ((k, m) ∷ rest) z f = if k == z then (k, f m) ∷ rest else (k, m) ∷ update_mode rest z f

abbrev pub no_zconfig : ℕ × Head → ℕ × Head
no_zconfig e = (e.0, record e.1 { zconfig = none })

-- `cleanup` of zwlr_output_configuration.c, called with the state SUCCEEDED, FAILED or CANCELLED.
unfoldable pub cleanup : Displ → DisplState → Displ
cleanup d state = record d { heads = map no_zconfig d.heads; state = state }

-- `done` of zwlr_output_manager.c.
unfoldable pub manager_done : Displ → ℕ → Displ
manager_done d serial = record d { zwlr_output_manager_serial = serial }

-- What the compositor may send: a head arrives at an address, a head is finished (a dummy takes its
-- place), an event for a head or its modes, the end of a configuration, the end of an update.
pub data Event : Type 0 where
  arrived : Option ℕ → ℕ → Event
  finished : ℕ → ℕ → Event
  at_head : ℕ → HeadEvent → Event
  ended : DisplState → Event
  done : ℕ → Event

module _ (pf : Platform) where
  open pf use {lib}
  open lib use {pp}

  -- The listener functions of zwlr_output_head.c but `finished`, and those of zwlr_output_mode.c.
  unfoldable pub head_event : Head → HeadEvent → Head
  unfolding update_mode
  head_event h (name s) = record h { name = some s }
  head_event h (make s) = record h { make = some s }
  head_event h (model s) = record h { model = some s }
  head_event h (serial_number s) = record h { serial_number = some s }
  head_event h (description s) = head_set_description h s
  head_event h (physical_size w t) = record h { width_mm = w; height_mm = t }
  head_event h (position x y) = record h { cur = record h.cur { x = x; y = y } }
  head_event h (mode z addr) = record h { modes = pp.put h.modes z (mode_init addr) }
  head_event h (enabled e) = record h { cur = record h.cur { enabled = not (eqb_ℤ e (pos 0)) } }
  head_event h (current_mode z) = record h { cur = record h.cur { zmode = some z } }
  head_event h (transform t) = record h { cur = record h.cur { transform = t } }
  head_event h (scale s) = record h { cur = record h.cur { scale = s } }
  head_event h (adaptive_sync a) = record h { cur = record h.cur { adaptive_sync = a } }
  head_event h (mode_size z w t) = record h {
    modes = update_mode h.modes z (λ m. record m { width = w; height = t });
  }
  head_event h (mode_refresh z r) = record h {
    modes = update_mode h.modes z (λ m. record m { refresh_mhz = r });
  }
  head_event h (mode_preferred z) = head_set_mode_pref pf h z
  head_event h (mode_finished z) = head_release_mode pf h z

  unfoldable pub displ_event : Displ → Event → Displ
  unfolding head_event cleanup manager_done
  displ_event d (arrived zhead addr) = displ_add_head pf d zhead addr
  displ_event d (finished zhead dummy) = displ_finished_head pf d zhead dummy
  displ_event d (at_head addr e) = record d {
    heads = update_head d.heads addr (λ h. head_event h e);
  }
  displ_event d (ended state) = cleanup d state
  displ_event d (done serial) = manager_done d serial
