-- ===== src/Yaml/ModeBack.antt =====
-- The modes, scales and transforms of a configuration, as src/yaml/unmarshal-types.c reads them where
-- src/yaml/marshal-types.c has written them.
use Prim.Native.Nat.{ℕ}
use mathlib.Core.List.{append_assoc, append-nil}
use way_displays.Prelude.{
  ◌≡◌, refl, ap, ◌∙◌, sym, ℤ, pos, negsuc, eqb_ℤ, true, false, Option, none, some, String, List, [],
  ◌∷◌, ◌++◌, All, All-map, ◌⊎◌, inl, inr,
}
use way_displays.Prelude.Text.{strcasecmp}
use way_displays.Enums.Names.{transforms, _name, _val, val_in}
use way_displays.Enums.Values.{transform_val, on_off_val}
use way_displays.Platform.{Platform}
use way_displays.Mode.{Mode, mode_init}
use way_displays.Yaml.{Node, scalar, mapping, entries, Scanner}
use way_displays.Yaml.Primitives.{
  put_pairs, yaml_scalar_to_string, yaml_scalar_to_enum, yaml_scalar_to_boolean, yaml_scalar_to_int,
  yaml_map_to_spmap,
}
use way_displays.Yaml.Modes.{
  yaml_map_to_cfg_mode, yaml_map_into_cfg_modes, yaml_map_into_transforms, yaml_map_into_scales,
  field, read_scale, read_hz, fields_of, mode_fields, put_all_valid,
}
use way_displays.Yaml.Marshal.{
  yaml_map_add_int, yaml_map_add_bool, Printer, Entries, flat, pairs_of, yaml_map_add_str,
  yaml_map_from_transforms, of_transforms, of_scales, yaml_map_add_float_nz,
  yaml_map_from_cfg_modes, of_modes, add_hz, mode_entries, yaml_map_from_scales,
}
use way_displays.Yaml.Lookup.{find_pair, get_pairs}
use way_displays.Yaml.Parts.{GoodNames, keys, nodes, map_back}

-- A transform of the protocol.
abbrev pub IsTransform : ℕ → Type 0
IsTransform t = (t ≡ 1) ⊎ ((t ≡ 2) ⊎ ((t ≡ 3) ⊎ ((t ≡ 4) ⊎ ((t ≡ 5) ⊎ ((t ≡ 6) ⊎ (t ≡ 7))))))

abbrev text_of : ℕ → String
text_of t = elim (flat (_name transforms t)) [ none ↦ "" | some s ↦ s ]

abbrev transform_node : ℕ → Node
transform_node t = scalar (text_of t)

transform_named : (t : ℕ) → IsTransform t → flat (_name transforms t) ≡ some (text_of t)
unfolding _name
transform_named t (inl e) = rw e refl
transform_named t (inr (inl e)) = rw e refl
transform_named t (inr (inr (inl e))) = rw e refl
transform_named t (inr (inr (inr (inl e)))) = rw e refl
transform_named t (inr (inr (inr (inr (inl e))))) = rw e refl
transform_named t (inr (inr (inr (inr (inr (inl e)))))) = rw e refl
transform_named t (inr (inr (inr (inr (inr (inr e)))))) = rw e refl

transform_read :
    (t : ℕ) → IsTransform t → yaml_scalar_to_enum transform_val (some (transform_node t)) ≡ some t
unfolding _name yaml_scalar_to_enum yaml_scalar_to_string transform_val _val val_in strcasecmp
transform_read t (inl e) = rw e refl
transform_read t (inr (inl e)) = rw e refl
transform_read t (inr (inr (inl e))) = rw e refl
transform_read t (inr (inr (inr (inl e)))) = rw e refl
transform_read t (inr (inr (inr (inr (inl e))))) = rw e refl
transform_read t (inr (inr (inr (inr (inr (inl e)))))) = rw e refl
transform_read t (inr (inr (inr (inr (inr (inr e)))))) = rw e refl

module _ (pf : Platform) (sc : Scanner pf.Real) (pr : Printer pf.Real) (addr : String → ℕ) where
  open pf use {lib, Real, of_int, div, eqb}
  open lib use {sp}

  abbrev read_transform : String → Option Node → Option ℕ
  read_transform key n = yaml_scalar_to_enum transform_val n

  abbrev transform_nodes : List (String × ℕ) → Entries
  transform_nodes m = nodes pf sc read_transform transform_node m

  transforms_written :
      (m : List (String × ℕ)) (acc : Entries)
      → All (λ e. IsTransform e.1) m
      → of_transforms m acc ≡ acc ++ transform_nodes m
  unfolding yaml_map_add_str
  transforms_written [] acc g = sym (append-nil acc)
  transforms_written ((k, t) ∷ m) acc g =
      ap (λ o. of_transforms m (yaml_map_add_str (some k) o acc)) (transform_named t g.0)
      ∙ transforms_written m (acc ++ (k, transform_node t) ∷ []) g.1
      ∙ append_assoc acc ((k, transform_node t) ∷ []) (transform_nodes m)

  transforms_read :
      (m : List (String × ℕ))
      → All (λ e. IsTransform e.1) m
      → All (λ e. read_transform e.0 (some (transform_node e.1)) ≡ some e.1) m
  transforms_read m g = All-map (λ e h. transform_read e.1 h) m g

  -- Transforms of displays with good names are read as they were written.
  pub transforms_back :
      (e : String × ℕ) (m : List (String × ℕ))
      → GoodNames pf (keys (e ∷ m))
      → All (λ e. IsTransform e.1) (e ∷ m)
      → yaml_map_into_transforms pf sc [] (yaml_map_from_transforms (e ∷ m)) ≡ e ∷ m
  unfolding yaml_map_into_transforms yaml_map_from_transforms
  transforms_back e m g t =
      ap
        (λ es.
          put_all_valid pf sc read_transform []
            (yaml_map_to_spmap pf (some (mapping (pairs_of es)))))
        (transforms_written (e ∷ m) [] t)
      ∙ map_back pf sc read_transform transform_node (e ∷ m) g (transforms_read (e ∷ m) t)

  abbrev scale_text : ℕ → String
  scale_text s = pr.show_float (div (of_int (pos s)) (of_int (pos 1000)))

  abbrev scale_node : ℕ → Node
  scale_node s = scalar (scale_text s)

  -- A scale that is not printed as 0 and is read as it is printed.
  abbrev pub ScaleKept : ℕ → Type 0
  ScaleKept s =
      (eqb (div (of_int (pos s)) (of_int (pos 1000))) (of_int (pos 0)) ≡ false)
      × (read_scale pf sc (some (scale_node s)) ≡ some s)

  abbrev read_of : String → Option Node → Option ℕ
  read_of key n = read_scale pf sc n

  abbrev scale_nodes : List (String × ℕ) → Entries
  scale_nodes m = nodes pf sc read_of scale_node m

  scale_written :
      (k : String) (s : ℕ) (acc : Entries)
      → ScaleKept s
      → yaml_map_add_float_nz pf pr (some k) (div (of_int (pos s)) (of_int (pos 1000))) acc
        ≡ acc ++ (k, scale_node s) ∷ []
  unfolding yaml_map_add_float_nz yaml_map_add_str
  scale_written k s acc h = rw h.0 refl

  scales_written :
      (m : List (String × ℕ)) (acc : Entries)
      → All (λ e. ScaleKept e.1) m
      → of_scales pf pr m acc ≡ acc ++ scale_nodes m
  scales_written [] acc g = sym (append-nil acc)
  scales_written ((k, s) ∷ m) acc g =
      ap (of_scales pf pr m) (scale_written k s acc g.0)
      ∙ scales_written m (acc ++ (k, scale_node s) ∷ []) g.1
      ∙ append_assoc acc ((k, scale_node s) ∷ []) (scale_nodes m)

  -- Scales of displays with good names are read as they were written.
  pub scales_back :
      (e : String × ℕ) (m : List (String × ℕ))
      → GoodNames pf (keys (e ∷ m))
      → All (λ e. ScaleKept e.1) (e ∷ m)
      → yaml_map_into_scales pf sc [] (yaml_map_from_scales pf pr (e ∷ m)) ≡ e ∷ m
  unfolding yaml_map_into_scales yaml_map_from_scales
  scales_back e m g t =
      ap
        (λ es. put_all_valid pf sc read_of [] (yaml_map_to_spmap pf (some (mapping (pairs_of es)))))
        (scales_written (e ∷ m) [] t)
      ∙ map_back pf sc read_of scale_node (e ∷ m) g (All-map (λ e h. h.1) (e ∷ m) t)

  abbrev IntKept : ℤ → Type 0
  IntKept z = sc.scan_int (pr.show_int z) ≡ some z

  abbrev hz_text : ℤ → String
  hz_text mhz = pr.show_float (div (of_int mhz) (of_int (pos 1000)))

  -- A refresh that is left out, or is read as it is printed.
  abbrev HzKept : ℤ → Type 0
  HzKept mhz =
      (mhz ≡ negsuc 0)
      ⊎ ((eqb_ℤ mhz (negsuc 0) ≡ false) × (read_hz pf sc (some (scalar (hz_text mhz))) ≡ some mhz))

  abbrev resolution : ℕ → ℤ → ℤ → ℤ → Mode
  resolution a w h mhz = record (mode_init a) { width = w; height = h; refresh_mhz = mhz }

  -- A mode as it can be written: a maximum, the highest refresh, or a resolution whose numbers are
  -- read as they are printed.
  pub data ModeKept (a : ℕ) : Mode → Type 0 where
    maximum : ModeKept a (record (mode_init a) { max = true })
    preferred : ModeKept a (record (mode_init a) { max_preferred_refresh = true })
    explicit :
        (w h mhz : ℤ) → IntKept w → IntKept h → HzKept mhz → ModeKept a (resolution a w h mhz)

  -- The fields that are read of the pairs.
  abbrev fields_in : ℕ → List (Node × Node) → Option Mode
  fields_in a es =
      fields_of pf sc (mode_init a) (find_pair es "WIDTH") (find_pair es "HEIGHT")
        (find_pair es "HZ") (find_pair es "MAX") (find_pair es "MAX_PREFERRED_REFRESH")

  mode_fields_read :
      (a : ℕ) (es : List (Node × Node))
      → mode_fields pf sc (mode_init a) (put_pairs pf [] es) ≡ fields_in a es
  unfolding mode_fields
  mode_fields_read a es i =
      fields_of pf sc (mode_init a) (get_pairs pf es "WIDTH" i) (get_pairs pf es "HEIGHT" i)
        (get_pairs pf es "HZ" i) (get_pairs pf es "MAX" i)
        (get_pairs pf es "MAX_PREFERRED_REFRESH" i)

  numbers_read :
      (a : ℕ) (w h mhz : ℤ) (hz : Option Node)
      → IntKept w
      → IntKept h
      → field (negsuc 0) (read_hz pf sc) hz ≡ some mhz
      → fields_of pf sc
          (mode_init a)
          (some (scalar (pr.show_int w)))
          (some (scalar (pr.show_int h)))
          hz
          none
          none
        ≡ some (resolution a w h mhz)
  unfolding yaml_scalar_to_int yaml_scalar_to_string mode_init
  numbers_read a w h mhz hz p q r = rw (p, q, r) refl

  abbrev sizes : ℤ → ℤ → Entries
  sizes w h = ("WIDTH", scalar (pr.show_int w)) ∷ ("HEIGHT", scalar (pr.show_int h)) ∷ []

  hz_written :
      (w h mhz : ℤ)
      → eqb_ℤ mhz (negsuc 0) ≡ false
      → add_hz pf pr mhz (sizes w h) ≡ sizes w h ++ ("HZ", scalar (hz_text mhz)) ∷ []
  unfolding yaml_map_add_str
  hz_written w h mhz n = rw n refl

  explicit_read :
      (a : ℕ) (w h mhz : ℤ)
      → IntKept w
      → IntKept h
      → HzKept mhz
      → fields_in a (entries (pairs_of (mode_entries pf pr (resolution a w h mhz))))
        ≡ some (resolution a w h mhz)
  unfolding mode_entries mode_init yaml_map_add_int yaml_map_add_str
  explicit_read a w h mhz p q (inl e) =
      ap (λ z. fields_in a (entries (pairs_of (add_hz pf pr z (sizes w h))))) e
      ∙ numbers_read a w h mhz none p q (ap (λ z. some z) (sym e))
  explicit_read a w h mhz p q (inr (n, r)) =
      ap (λ es. fields_in a (entries (pairs_of es))) (hz_written w h mhz n)
      ∙ numbers_read a w h mhz (some (scalar (hz_text mhz))) p q r

  mode_back :
      (a : ℕ) (mode : Mode)
      → ModeKept a mode
      → yaml_map_to_cfg_mode pf sc a (some (mapping (pairs_of (mode_entries pf pr mode))))
        ≡ some mode
  unfolding yaml_map_to_cfg_mode yaml_map_to_spmap mode_init mode_entries yaml_map_add_bool
      yaml_map_add_str yaml_scalar_to_boolean yaml_scalar_to_enum yaml_scalar_to_string on_off_val
      _val val_in strcasecmp
  mode_back a _ maximum = mode_fields_read a ((scalar "MAX", scalar "TRUE") ∷ [])
  mode_back a _ preferred =
      mode_fields_read a ((scalar "MAX_PREFERRED_REFRESH", scalar "TRUE") ∷ [])
  mode_back a _ (explicit w h mhz p q r) =
      mode_fields_read a (entries (pairs_of (mode_entries pf pr (resolution a w h mhz))))
      ∙ explicit_read a w h mhz p q r

  abbrev read_mode : String → Option Node → Option Mode
  read_mode key n = yaml_map_to_cfg_mode pf sc (addr key) n

  abbrev mode_node : Mode → Node
  mode_node mode = mapping (pairs_of (mode_entries pf pr mode))

  modes_written : (m : List (String × Mode)) → of_modes pf pr m ≡ nodes pf sc read_mode mode_node m
  modes_written [] = refl
  modes_written ((k, mode) ∷ m) = ap (λ l. (k, mode_node mode) ∷ l) (modes_written m)

  -- Modes of displays with good names are read as they were written.
  pub modes_back :
      (e : String × Mode) (m : List (String × Mode))
      → GoodNames pf (keys (e ∷ m))
      → All (λ e. ModeKept (addr e.0) e.1) (e ∷ m)
      → yaml_map_into_cfg_modes pf sc addr [] (yaml_map_from_cfg_modes pf pr (e ∷ m)) ≡ e ∷ m
  unfolding yaml_map_into_cfg_modes yaml_map_from_cfg_modes
  modes_back e m g t =
      ap
        (λ es.
          put_all_valid pf sc read_mode [] (yaml_map_to_spmap pf (some (mapping (pairs_of es)))))
        (modes_written (e ∷ m))
      ∙ map_back pf sc read_mode mode_node (e ∷ m) g
          (All-map (λ e h. mode_back (addr e.0) e.1 h) (e ∷ m) t)
