-- ===== src/Yaml/Heads.antt =====
-- What src/yaml/unmarshal-types.c reads of the heads and the lid of the server. A mode or a head that is
-- read is placed at the next of the addresses, of which there is always one more. A mode of a list that
-- is no map puts NULL under the key NULL, which no search finds and which is left out.
use way_displays.Prelude.{
  ℕ, suc, pos, Bool, true, false, Option, none, some, String, List, [], ◌∷◌, ◌++◌, or_else,
}
use way_displays.Enums.{ManualOverride}
use way_displays.Enums.Values.{transform_val}
use way_displays.Platform.{Platform}
use way_displays.Mode.{Mode, mode_init, mode_equal}
use way_displays.Head.{Head, HeadState, AdaptiveSync, vrr_enabled, vrr_disabled, head_init}
use way_displays.Lid.{Lid}
use way_displays.Collections.{key_of}
use way_displays.Yaml.{Node, Scanner}
use way_displays.Yaml.Primitives.{
  ◌>>=◌, or_default, yaml_scalar_to_string, yaml_scalar_to_boolean, yaml_scalar_to_int,
  yaml_scalar_to_float, yaml_scalar_to_enum, yaml_seq_into_col, yaml_map_to_spmap,
}

-- A disabling override is one to false.
abbrev pub override_of : Option Bool → ManualOverride
override_of none = ManualOverride.no_override
override_of (some true) = ManualOverride.override_false
override_of (some false) = ManualOverride.override_true

abbrev vrr_of : Bool → AdaptiveSync
vrr_of true = vrr_enabled
vrr_of false = vrr_disabled

-- Whether the entry is equal to the mode.
abbrev equal_to : Mode → ℕ × Mode → Bool
equal_to mode e = mode_equal (some e.1) (some mode)

module _ (pf : Platform) where
  open pf use {lib, Real}
  open lib use {sp, pp}

  abbrev lid_of : List (String × Node) → Lid
  lid_of m = record {
    device_path = yaml_scalar_to_string (sp.get m "DEVICE_PATH");
    closed = or_default false (yaml_scalar_to_boolean (sp.get m "CLOSED"));
  }

  unfoldable pub yaml_map_to_lid : Option Node → Option Lid
  unfolding yaml_map_to_spmap yaml_scalar_to_string yaml_scalar_to_boolean
  yaml_map_to_lid n = yaml_map_to_spmap pf n >>= λ m. some (lid_of m)

  -- The override of a head, where it is there.
  unfoldable pub read_override : Option Node → ManualOverride
  unfolding yaml_map_to_spmap yaml_scalar_to_boolean
  read_override n =
      override_of (yaml_map_to_spmap pf n >>= λ m. yaml_scalar_to_boolean (sp.get m "DISABLED"))

  -- The key of the first mode that is equal.
  abbrev equal_key : List (ℕ × Mode) → Mode → Option ℕ
  equal_key modes mode = pp.first_key (λ a b. mode_equal (some a) (some b)) modes mode

  abbrev found_key : List (ℕ × Mode) → Mode → Option ℕ
  found_key modes mode = key_of (pp.find (equal_to mode) modes)

module _ (pf : Platform) (sc : Scanner pf.Real) where
  open pf use {lib, Real, wl_fixed_from_double}
  open lib use {sp, pp}

  abbrev head_mode_of : ℕ → List (String × Node) → Mode
  head_mode_of addr m = record (mode_init addr) {
    width = or_default (mode_init addr).width (yaml_scalar_to_int pf sc (sp.get m "WIDTH"));
    height = or_default (mode_init addr).height (yaml_scalar_to_int pf sc (sp.get m "HEIGHT"));
    refresh_mhz =
        or_default (mode_init addr).refresh_mhz (yaml_scalar_to_int pf sc (sp.get m "REFRESH_MHZ"));
  }

  unfoldable pub yaml_map_to_head_mode : ℕ → Option Node → Option Mode
  unfolding yaml_map_to_spmap yaml_scalar_to_int mode_init
  yaml_map_to_head_mode addr n = yaml_map_to_spmap pf n >>= λ m. some (head_mode_of addr m)

  abbrev put_mode : List (ℕ × Mode) × ℕ → Option Mode → List (ℕ × Mode) × ℕ
  put_mode (modes, next) none = (modes, next)
  put_mode (modes, next) (some mode) = (pp.put modes next mode, suc next)

  unfoldable pub yaml_map_into_head_modes : List (ℕ × Mode) × ℕ → Node → List (ℕ × Mode) × ℕ
  unfolding yaml_map_to_head_mode
  yaml_map_into_head_modes (modes, next) n =
      put_mode (modes, next) (yaml_map_to_head_mode next (some n))

  -- The mode of a state is one of those of the head.
  abbrev mode_key : Head → Option ℕ → Option Mode → Option ℕ
  mode_key head old none = old
  mode_key head old (some mode) =
      or_else (equal_key pf head.modes mode) (equal_key pf head.modes_failed mode)

  abbrev state_of : HeadState → Head → List (String × Node) → HeadState
  state_of state head m = record state {
    enabled = or_default state.enabled (yaml_scalar_to_boolean (sp.get m "ENABLED"));
    x = or_default state.x (yaml_scalar_to_int pf sc (sp.get m "X"));
    y = or_default state.y (yaml_scalar_to_int pf sc (sp.get m "Y"));
    transform = or_default 0 (yaml_scalar_to_enum transform_val (sp.get m "TRANSFORM"));
    scale =
        or_default state.scale
          (yaml_scalar_to_float pf sc (sp.get m "SCALE") >>= λ s. some (wl_fixed_from_double s));
    adaptive_sync =
        or_default state.adaptive_sync
          (yaml_scalar_to_boolean (sp.get m "VRR") >>= λ b. some (vrr_of b));
    zmode = mode_key head state.zmode (yaml_map_to_head_mode 0 (sp.get m "MODE"));
  }

  unfoldable pub yaml_map_into_head_state : HeadState → Head → Option Node → HeadState
  unfolding yaml_map_to_spmap yaml_scalar_to_boolean yaml_scalar_to_int yaml_scalar_to_enum
      yaml_scalar_to_float yaml_map_to_head_mode mode_equal
  yaml_map_into_head_state state head n =
      or_default state (yaml_map_to_spmap pf n >>= λ m. some (state_of state head m))

  abbrev preferred_key : List (ℕ × Mode) → List (ℕ × Mode) → Option Mode → Option ℕ
  preferred_key modes failed none = none
  preferred_key modes failed (some mode) =
      or_else (found_key pf modes mode) (found_key pf failed mode)

  -- The head without its states and its override.
  abbrev head_about : ℕ → List (ℕ × Mode) → List (ℕ × Mode) → List (String × Node) → Head
  head_about addr modes failed m = record (head_init addr) {
    modes = modes;
    modes_failed = failed;
    name = yaml_scalar_to_string (sp.get m "NAME");
    description = yaml_scalar_to_string (sp.get m "DESCRIPTION");
    make = yaml_scalar_to_string (sp.get m "MAKE");
    model = yaml_scalar_to_string (sp.get m "MODEL");
    serial_number = yaml_scalar_to_string (sp.get m "SERIAL_NUMBER");
    width_mm = or_default (pos 0) (yaml_scalar_to_int pf sc (sp.get m "WIDTH_MM"));
    height_mm = or_default (pos 0) (yaml_scalar_to_int pf sc (sp.get m "HEIGHT_MM"));
    zmode_pref = preferred_key modes failed (yaml_map_to_head_mode 0 (sp.get m "MODE_PREFERRED"));
  }

  abbrev pub read_head : ℕ → List (String × Node) → Head × ℕ
  read_head next m =
      let modes =
        (yaml_seq_into_col yaml_map_into_head_modes ([], suc next) (sp.get m "MODES")).0 in
      let failed =
        (yaml_seq_into_col yaml_map_into_head_modes ([], modes.1) (sp.get m "MODES_FAILED")).0 in
      let head = head_about next modes.0 failed.0 m in
      let cur = yaml_map_into_head_state head.cur head (sp.get m "CURRENT") in
      let with_cur = record head { cur = cur } in
      (
        record with_cur {
          des = yaml_map_into_head_state head.des with_cur (sp.get m "DESIRED");
          overrided_enabled = read_override pf (sp.get m "OVERRIDES");
        },
        failed.1,
      )

  abbrev add_head : List Head × ℕ → Option (List (String × Node)) → List Head × ℕ
  add_head (heads, next) none = (heads, next)
  add_head (heads, next) (some m) =
      let (head, after) = read_head next m in (heads ++ head ∷ [], after)

  unfoldable pub yaml_map_into_heads : List Head × ℕ → Node → List Head × ℕ
  unfolding yaml_map_to_spmap yaml_map_into_head_modes yaml_map_into_head_state
      yaml_map_to_head_mode yaml_seq_into_col yaml_scalar_to_string yaml_scalar_to_int read_override
      head_init mode_equal
  yaml_map_into_heads c n = add_head c (yaml_map_to_spmap pf (some n))
