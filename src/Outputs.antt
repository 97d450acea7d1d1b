-- ===== src/Outputs.antt =====
-- src/output.c, src/listener/zxdg_output.c and src/listener/registry.c: the globals of the compositor, and
-- the outputs, of which the name and the logical geometry are known. They are fields of `g_displ`, kept
-- apart from `Displ`, which does not read them. Whether a binding succeeds is an argument.
use text.Mathlib.Text.{◌==◌ as str_eq}
use way_displays.Prelude.{
  ℕ, ◌==◌, ltb, ℤ, pos, Bool, true, false, ◌&&◌, Option, none, some, String, List, if◌then◌else◌,
}
use way_displays.Platform.{Platform}

pub record Output : Type 0 where
  pub wl_output_name : ℕ
  pub name : Option String
  pub description : Option String
  pub logical_x : ℤ
  pub logical_y : ℤ
  pub logical_width : ℤ
  pub logical_height : ℤ

-- A global that was bound.
pub record Bound : Type 0 where
  pub name : ℕ
  pub version : ℕ
  pub interface : String

pub record Globals : Type 0 where
  pub zwlr_output_manager : Option Bound
  pub zxdg_output_manager : Option Bound
  pub outputs : List (ℕ × Output)

-- An output, if the manager is there and gives an xdg output for it.
unfoldable pub output_init : ℕ → Option Bound → Bool → Option Output
output_init name none given = none
output_init name (some manager) false = none
output_init name (some manager) true = some (record {
  wl_output_name = name;
  name = none;
  description = none;
  logical_x = pos 0;
  logical_y = pos 0;
  logical_width = pos 0;
  logical_height = pos 0;
})

abbrev same_name : Option String → Option String → Bool
same_name (some a) (some b) = str_eq a b
same_name _ _ = false

unfoldable pub output_matches_name : Option Output → Option String → Bool
output_matches_name none name = false
output_matches_name (some output) name = same_name output.name name

-- The events of an xdg output.
pub data OutputEvent : Type 0 where
  logical_position logical_size : ℤ → ℤ → OutputEvent
  done : OutputEvent
  name description : String → OutputEvent

-- The functions of the listener of zxdg_output.c.
unfoldable pub output_event : Output → OutputEvent → Output
output_event output (logical_position x y) = record output { logical_x = x; logical_y = y }
output_event output (logical_size w h) = record output { logical_width = w; logical_height = h }
output_event output done = output
output_event output (name s) = record output { name = some s }
output_event output (description s) = record output { description = some s }

abbrev pub zwlr_output_manager_v1_version_min : ℕ
zwlr_output_manager_v1_version_min = 4

-- The name is 0 where none was bound.
abbrev pub is_named : ℕ → Option Bound → Bool
is_named n none = n == 0
is_named n (some b) = b.name == n

-- The globals after an event of the registry; `none` where the program exits.
module _ (pf : Platform) where
  open pf use {lib}
  open lib use {ip}

  abbrev bind_output : Globals → ℕ → Option Output → Globals
  bind_output g n none = g
  bind_output g n (some output) = record g { outputs = ip.put g.outputs n output }

  -- `global`: the output manager, the manager of xdg outputs, or an output, where `bound` says
  -- whether it could be bound and `given` whether an xdg output was given for it.
  unfoldable pub global : Globals → ℕ → String → ℕ → Bool → Bool → Option Globals
  unfolding output_init
  global g n interface version bound given =
      if str_eq interface "zwlr_output_manager_v1"
      then (if ltb version zwlr_output_manager_v1_version_min
          then none
          else some (record g {
            zwlr_output_manager =
                some (record { name = n; version = version; interface = interface });
          }))
      else if str_eq interface "zxdg_output_manager_v1"
      then some (record g {
        zxdg_output_manager = some (record { name = n; version = version; interface = interface });
      })
      else if str_eq interface "wl_output" && bound
      then some (bind_output g n (output_init n g.zxdg_output_manager given))
      else some g

  -- The program exits when its output manager goes away.
  unfoldable pub global_remove : Globals → ℕ → Option Globals
  global_remove g n =
      if is_named n g.zwlr_output_manager
      then none
      else some (record g { outputs = ip.remove g.outputs n })
