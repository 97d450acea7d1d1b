-- ===== src/Yaml/Modes.antt =====
-- The maps of src/yaml/unmarshal-types.c for the modes, scales and transforms of a configuration.
use way_displays.Prelude.{ℕ, ℤ, pos, ◌||◌, Option, none, some, String, List, [], ◌∷◌, if◌then◌else◌}
use way_displays.Enums.Values.{transform_val}
use way_displays.Platform.{Platform}
use way_displays.Mode.{Mode, mode_init}
use way_displays.Args.{int32_of}
use way_displays.Yaml.{Node, Scanner}
use way_displays.Yaml.Primitives.{
  ◌>>=◌, yaml_scalar_to_int, yaml_scalar_to_float, yaml_scalar_to_boolean, yaml_scalar_to_enum,
  yaml_map_to_spmap, yaml_valid_name_desc,
}

-- A value that may be left out, where what is there must be read.
abbrev pub field : {A : Type 0} → A → (Option Node → Option A) → Option Node → Option A
field old read none = some old
field old read (some n) = read (some n)

module _ (pf : Platform) (sc : Scanner pf.Real) where
  open pf use {lib, Real, of_int, mul, lt, eqb}
  open lib use {sp}

  abbrev pub mhz_of : Real → ℤ
  mhz_of hz = int32_of (sc.lround (mul hz (of_int (pos 1000))))

  abbrev pub read_hz : Option Node → Option ℤ
  read_hz n = yaml_scalar_to_float pf sc n >>= λ hz. some (mhz_of hz)

  -- The fields of a mode, in which the first that is not read ends it.
  abbrev pub fields_of :
      Mode → Option Node → Option Node → Option Node → Option Node → Option Node → Option Mode
  fields_of mode w h hz max_node preferred_node =
      field mode.width (yaml_scalar_to_int pf sc) w >>= λ width.
      field mode.height (yaml_scalar_to_int pf sc) h >>= λ height.
      field mode.refresh_mhz read_hz hz >>= λ refresh_mhz.
      field mode.max yaml_scalar_to_boolean max_node >>= λ max.
      field mode.max_preferred_refresh yaml_scalar_to_boolean preferred_node
      >>= λ max_preferred_refresh. some (record mode {
        width = width;
        height = height;
        refresh_mhz = refresh_mhz;
        max = max;
        max_preferred_refresh = max_preferred_refresh;
      })

  unfoldable pub mode_fields : Mode → List (String × Node) → Option Mode
  unfolding yaml_scalar_to_int yaml_scalar_to_float yaml_scalar_to_boolean int32_of
  mode_fields mode m =
      fields_of mode (sp.get m "WIDTH") (sp.get m "HEIGHT") (sp.get m "HZ") (sp.get m "MAX")
        (sp.get m "MAX_PREFERRED_REFRESH")

  -- The struct is placed at `addr`.
  unfoldable pub yaml_map_to_cfg_mode : ℕ → Option Node → Option Mode
  unfolding mode_fields yaml_map_to_spmap mode_init
  yaml_map_to_cfg_mode addr n = yaml_map_to_spmap pf n >>= λ m. mode_fields (mode_init addr) m

  -- An entry that was not read is not put.
  abbrev pub put_new : {V : Type 0} → List (String × V) → String → Option V → List (String × V)
  put_new map key none = map
  put_new map key (some v) = sp.put_if_absent map key v

  -- The entries of a map whose keys are valid, each with what it gives.
  unfoldable pub put_valid :
      {V : Type 0}
      → (String → Option Node → Option V)
      → List (String × V)
      → List (String × Node)
      → List (String × V)
  unfolding yaml_valid_name_desc
  put_valid read map [] = map
  put_valid read map ((key, n) ∷ rest) =
      let next = if yaml_valid_name_desc pf key then put_new map key (read key (some n)) else map in
      put_valid read next rest

  abbrev pub put_all_valid :
      {V : Type 0}
      → (String → Option Node → Option V)
      → List (String × V)
      → Option (List (String × Node))
      → List (String × V)
  put_all_valid read map none = map
  put_all_valid read map (some m) = put_valid read map m

  -- The struct of the mode of a key is placed at the address of the key.
  unfoldable pub yaml_map_into_cfg_modes :
      (String → ℕ) → List (String × Mode) → Node → List (String × Mode)
  unfolding put_valid yaml_map_to_cfg_mode yaml_map_to_spmap
  yaml_map_into_cfg_modes addr modes n =
      put_all_valid (λ key v. yaml_map_to_cfg_mode (addr key) v) modes
        (yaml_map_to_spmap pf (some n))

  -- A positive scale, in thousandths.
  abbrev pub thousandths : Real → Option ℕ
  thousandths scale =
      if lt scale (of_int (pos 0)) || eqb scale (of_int (pos 0))
      then none
      else some (sc.size_of (sc.round (mul scale (of_int (pos 1000)))))

  abbrev pub read_scale : Option Node → Option ℕ
  read_scale n = yaml_scalar_to_float pf sc n >>= thousandths

  unfoldable pub yaml_map_into_scales : List (String × ℕ) → Node → List (String × ℕ)
  unfolding put_valid yaml_scalar_to_float yaml_map_to_spmap
  yaml_map_into_scales scales n =
      put_all_valid (λ key v. read_scale v) scales (yaml_map_to_spmap pf (some n))

  unfoldable pub yaml_map_into_transforms : List (String × ℕ) → Node → List (String × ℕ)
  unfolding put_valid yaml_scalar_to_enum yaml_map_to_spmap
  yaml_map_into_transforms transforms n =
      put_all_valid (λ key v. yaml_scalar_to_enum transform_val v) transforms
        (yaml_map_to_spmap pf (some n))
