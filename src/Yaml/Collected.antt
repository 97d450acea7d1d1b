-- ===== src/Yaml/Collected.antt =====
-- The elements of a configuration that are sets, maps or numbers: what src/yaml/unmarshal-types.c makes of
-- the entries that src/yaml/marshal-types.c writes for them.
use Prim.Native.Nat.{ℕ}
use way_displays.Prelude.{
  ◌≡◌, refl, arith, ap, ◌∙◌, sym, ℤ, pos, eqb_ℤ, Bool, true, false, none, some, String, List, [],
  ◌∷◌, ◌==◌, All, ◌⊎◌, inl, inr,
}
use way_displays.Prelude.Text.{strcasecmp}
use way_displays.Enums.Names.{_name, _val, val_in, scale_round_tos}
use way_displays.Enums.Values.{cfg_element_val}
use way_displays.Platform.{Platform}
use way_displays.Mode.{Mode}
use way_displays.Cfg.{Cfg, CfgDisabled}
use way_displays.Yaml.{scalar, Scanner, no_context}
use way_displays.Yaml.Primitives.{
  yaml_scalar_to_string, yaml_scalar_to_int, yaml_scalar_to_float, yaml_seq_into_name_desc_sset,
}
use way_displays.Yaml.Modes.{
  yaml_map_into_cfg_modes, yaml_map_into_scales, yaml_map_into_transforms,
}
use way_displays.Yaml.Conditions.{yaml_map_into_disableds}
use way_displays.Yaml.Document.{element_in, yaml_scalar_to_scale_round_to}
use way_displays.Yaml.Marshal.{
  Printer, Entries, flat, of_sset, yaml_map_add_int_nz, yaml_map_add_float_nz, yaml_map_from_scales,
  yaml_map_from_cfg_modes, yaml_map_from_transforms, yaml_map_from_disableds,
}
use way_displays.Yaml.Parts.{GoodNames, keys, sset_back}
use way_displays.Yaml.ModeBack.{
  IsTransform, ScaleKept, ModeKept, transforms_back, scales_back, modes_back,
}
use way_displays.Yaml.DisabledBack.{GoodDisableds, disableds_back}
use way_displays.Yaml.Elements.{Effect, read_entries, named, str_step}

module _ (pf : Platform) (sc : Scanner pf.Real) (pr : Printer pf.Real) (addr : String → ℕ) where
  open pf use {lib, Real, of_int, eqb}
  open lib use {sp}

  pub order-Effect :
      (l : List String) (c : Cfg Real)
      → GoodNames pf l
      → c.order_name_desc ≡ []
      → Effect pf sc addr "ORDER" (some (of_sset l)) c (record c { order_name_desc = l })
  unfolding element_in cfg_element_val _val val_in strcasecmp
  order-Effect l c g e =
      ap
        (λ s. (
          record c { order_name_desc = yaml_seq_into_name_desc_sset pf s (of_sset l) },
          no_context,
        ))
        e
      ∙ ap (λ s. (record c { order_name_desc = s }, no_context)) (sset_back pf l g)

  pub vrr_off-Effect :
      (l : List String) (c : Cfg Real)
      → GoodNames pf l
      → c.adaptive_sync_off ≡ []
      → Effect pf sc addr "VRR_OFF" (some (of_sset l)) c (record c { adaptive_sync_off = l })
  unfolding element_in cfg_element_val _val val_in strcasecmp
  vrr_off-Effect l c g e =
      ap
        (λ s. (
          record c { adaptive_sync_off = yaml_seq_into_name_desc_sset pf s (of_sset l) },
          no_context,
        ))
        e
      ∙ ap (λ s. (record c { adaptive_sync_off = s }, no_context)) (sset_back pf l g)

  -- The base of the scales is not set, or has a name that is read as it.
  abbrev pub RoundKept : ℕ → Type 0
  RoundKept n =
      ((n ≡ 0) × (flat (_name scale_round_tos n) ≡ none))
      ⊎ ((s : String) × (flat (_name scale_round_tos n) ≡ some s)
          × (yaml_scalar_to_scale_round_to pf sc addr (scalar s) ≡ n))

  pub round_to-Effect :
      (n : ℕ) (c : Cfg Real)
      → RoundKept n
      → c.scale_round_to ≡ 0
      → Effect pf sc addr "SCALE_ROUND_TO"
          (named pf sc addr (flat (_name scale_round_tos n)))
          c
          (record c { scale_round_to = n })
  unfolding element_in cfg_element_val _val val_in strcasecmp
  round_to-Effect n c (inl (z, e)) q = rw e (λ i. record c { scale_round_to = (q ∙ sym z) i })
  round_to-Effect n c (inr (s, e, r)) q =
      rw e (ap (λ x. (record c { scale_round_to = x }, no_context)) r)

  -- A whole number that is 0, or is read as it is printed.
  abbrev pub DpiKept : ℤ → Type 0
  DpiKept z = (z ≡ pos 0) ⊎ ((eqb_ℤ z (pos 0) ≡ false) × (sc.scan_int (pr.show_int z) ≡ some z))

  -- A number that is 0, or is read as it is printed.
  abbrev pub RealKept : Real → Type 0
  RealKept r =
      ((r ≡ of_int (pos 0)) × (eqb r (of_int (pos 0)) ≡ true))
      ⊎ ((eqb r (of_int (pos 0)) ≡ false) × (sc.scan_float (pr.show_float r) ≡ some r))

  pub dpi_step :
      (z : ℤ) (m : Entries) (c : Cfg Real)
      → DpiKept z
      → c.auto_scale_dpi ≡ pos 0
      → read_entries pf sc addr m ≡ (c, no_context)
      → read_entries pf sc addr (yaml_map_add_int_nz pf pr (some "AUTO_SCALE_DPI") z m)
        ≡ (record c { auto_scale_dpi = z }, no_context)
  unfolding yaml_map_add_int_nz element_in cfg_element_val _val val_in strcasecmp yaml_scalar_to_int
      yaml_scalar_to_string
  dpi_step z m c (inl e) q h = rw e (h ∙ (λ i. (record c { auto_scale_dpi = q i }, no_context)))
  dpi_step z m c (inr (n, r)) q h =
      rw n (str_step pf sc addr "AUTO_SCALE_DPI" (some (pr.show_int z)) m c _ h (rw r refl))

  pub min_step :
      (r : Real) (m : Entries) (c : Cfg Real)
      → RealKept r
      → c.auto_scale_min ≡ of_int (pos 0)
      → read_entries pf sc addr m ≡ (c, no_context)
      → read_entries pf sc addr (yaml_map_add_float_nz pf pr (some "AUTO_SCALE_MIN") r m)
        ≡ (record c { auto_scale_min = r }, no_context)
  unfolding yaml_map_add_float_nz element_in cfg_element_val _val val_in strcasecmp
      yaml_scalar_to_float yaml_scalar_to_string
  min_step r m c (inl (e, z)) q h =
      rw z (h ∙ (λ i. (record c { auto_scale_min = (q ∙ sym e) i }, no_context)))
  min_step r m c (inr (n, k)) q h =
      rw n (str_step pf sc addr "AUTO_SCALE_MIN" (some (pr.show_float r)) m c _ h (rw k refl))

  pub max_step :
      (r : Real) (m : Entries) (c : Cfg Real)
      → RealKept r
      → c.auto_scale_max ≡ of_int (pos 0)
      → read_entries pf sc addr m ≡ (c, no_context)
      → read_entries pf sc addr (yaml_map_add_float_nz pf pr (some "AUTO_SCALE_MAX") r m)
        ≡ (record c { auto_scale_max = r }, no_context)
  unfolding yaml_map_add_float_nz element_in cfg_element_val _val val_in strcasecmp
      yaml_scalar_to_float yaml_scalar_to_string
  max_step r m c (inl (e, z)) q h =
      rw z (h ∙ (λ i. (record c { auto_scale_max = (q ∙ sym e) i }, no_context)))
  max_step r m c (inr (n, k)) q h =
      rw n (str_step pf sc addr "AUTO_SCALE_MAX" (some (pr.show_float r)) m c _ h (rw k refl))

  pub scales-Effect :
      (m : List (String × ℕ)) (c : Cfg Real)
      → GoodNames pf (keys m)
      → All (λ e. ScaleKept pf sc pr addr e.1) m
      → c.scales ≡ []
      → Effect pf sc addr "SCALE" (some (yaml_map_from_scales pf pr m)) c (record c { scales = m })
  unfolding element_in cfg_element_val _val val_in strcasecmp yaml_map_from_scales
  scales-Effect [] c g k e = λ i. (record c { scales = e i }, no_context)
  scales-Effect (x ∷ m) c g k e =
      ap
        (λ s. (
          record c { scales = yaml_map_into_scales pf sc s (yaml_map_from_scales pf pr (x ∷ m)) },
          no_context,
        ))
        e
      ∙ ap (λ s. (record c { scales = s }, no_context)) (scales_back pf sc pr addr x m g k)

  pub modes-Effect :
      (m : List (String × Mode)) (c : Cfg Real)
      → GoodNames pf (keys m)
      → All (λ e. ModeKept pf sc pr addr (addr e.0) e.1) m
      → c.modes ≡ []
      → Effect pf sc addr "MODE" (some (yaml_map_from_cfg_modes pf pr m)) c (record c { modes = m })
  unfolding element_in cfg_element_val _val val_in strcasecmp yaml_map_from_cfg_modes
  modes-Effect [] c g k e = λ i. (record c { modes = e i }, no_context)
  modes-Effect (x ∷ m) c g k e =
      ap
        (λ s. (
          record c {
            modes = yaml_map_into_cfg_modes pf sc addr s (yaml_map_from_cfg_modes pf pr (x ∷ m));
          },
          no_context,
        ))
        e
      ∙ ap (λ s. (record c { modes = s }, no_context)) (modes_back pf sc pr addr x m g k)

  pub transforms-Effect :
      (m : List (String × ℕ)) (c : Cfg Real)
      → GoodNames pf (keys m)
      → All (λ e. IsTransform e.1) m
      → c.transforms ≡ []
      → Effect pf sc addr "TRANSFORM"
          (some (yaml_map_from_transforms m))
          c
          (record c { transforms = m })
  unfolding element_in cfg_element_val _val val_in strcasecmp yaml_map_from_transforms
  transforms-Effect [] c g k e = λ i. (record c { transforms = e i }, no_context)
  transforms-Effect (x ∷ m) c g k e =
      ap
        (λ s. (
          record c {
            transforms = yaml_map_into_transforms pf sc s (yaml_map_from_transforms (x ∷ m));
          },
          no_context,
        ))
        e
      ∙ ap (λ s. (record c { transforms = s }, no_context)) (transforms_back pf sc pr addr x m g k)

  abbrev pub none_disabled : List (String × CfgDisabled) → Bool
  none_disabled [] = true
  none_disabled (e ∷ m) = false

  abbrev with_read : Cfg Real → List (String × CfgDisabled) → Cfg Real
  with_read c m = record c { disableds = m; disableds_empty = sp.size m == 0 }

  some_left :
      (x : String × CfgDisabled) (m : List (String × CfgDisabled)) → (sp.size (x ∷ m) == 0) ≡ false
  some_left x m = ground (arith, sp.size_lem (x ∷ m))

  pub disabled-Effect :
      (m : List (String × CfgDisabled)) (c : Cfg Real)
      → GoodDisableds pf m
      → c.disableds ≡ []
      → Effect pf sc addr "DISABLED"
          (some (yaml_map_from_disableds m))
          c
          (record c { disableds = m; disableds_empty = none_disabled m })
  unfolding element_in cfg_element_val _val val_in strcasecmp yaml_map_from_disableds
  disabled-Effect [] c g e = λ i. (record c { disableds = e i; disableds_empty = true }, no_context)
  disabled-Effect (x ∷ m) c g e =
      ap
        (λ s. (
          with_read c (yaml_map_into_disableds pf s (yaml_map_from_disableds (x ∷ m))),
          no_context,
        ))
        e
      ∙ ap (λ s. (with_read c s, no_context)) (disableds_back pf x m g)
      ∙ ap (λ b. (record c { disableds = x ∷ m; disableds_empty = b }, no_context)) (some_left x m)
