-- ===== src/Yaml/Overrides.antt =====
-- The override of a head, which src/yaml/marshal-types.c writes and src/yaml/unmarshal-types.c reads.
use way_displays.Prelude.{ℕ, ◌≡◌, refl, ap, ◌∙◌, Option, some, List, [], ◌∷◌, ◌++◌}
use way_displays.Enums.{ManualOverride}
use way_displays.Enums.Names.{_val, val_in}
use way_displays.Enums.Values.{on_off_val}
use way_displays.Prelude.Text.{strcasecmp}
use way_displays.Platform.{Platform}
use way_displays.Mode.{Mode}
use way_displays.Head.{Head}
use way_displays.Yaml.{entries, Node, mapping, scalar, Scanner}
use way_displays.Yaml.Primitives.{
  put_pairs, yaml_map_to_spmap, yaml_scalar_to_boolean, yaml_scalar_to_enum, yaml_scalar_to_string,
}
use way_displays.Yaml.Marshal.{
  Printer, Entries, pairs_of, yaml_map_add_node, yaml_map_add_bool, yaml_map_add_str,
}
use way_displays.Yaml.State.{
  head_entries, head_states, mode_for, yaml_map_from_head_mode, yaml_map_add_plist, mode_node,
  yaml_map_from_head, yaml_map_from_head_overrides, override_entries,
}
use way_displays.Yaml.Heads.{read_head, read_override, yaml_map_into_heads}
use way_displays.Yaml.Lookup.{find_entry, get_pairs, find_added, find-add_node, find-add_plist}

abbrev pub opposite : ManualOverride → ManualOverride
opposite ManualOverride.no_override = ManualOverride.no_override
opposite ManualOverride.override_true = ManualOverride.override_false
opposite ManualOverride.override_false = ManualOverride.override_true

module _ (pf : Platform) where
  open pf use {lib, Real}
  open lib use {sp}

  disabled_read :
      (o : ManualOverride)
      → read_override pf (some (mapping (pairs_of (override_entries o)))) ≡ opposite o
  unfolding read_override yaml_map_to_spmap yaml_scalar_to_boolean yaml_scalar_to_enum
      yaml_scalar_to_string on_off_val _val val_in strcasecmp yaml_map_add_bool yaml_map_add_str
  disabled_read ManualOverride.no_override = rw (get_pairs pf [] "DISABLED") refl
  disabled_read ManualOverride.override_true =
      rw (get_pairs pf ((scalar "DISABLED", scalar "TRUE") ∷ []) "DISABLED") refl
  disabled_read ManualOverride.override_false =
      rw (get_pairs pf ((scalar "DISABLED", scalar "FALSE") ∷ []) "DISABLED") refl

module _ (pf : Platform) (sc : Scanner pf.Real) (pr : Printer pf.Real) where
  open pf use {lib, Real}
  open lib use {sp, pp}

  overrides_found :
      (m : Entries) (n : Node) (p : Option Node) (modes failed : List Mode)
      → find_entry
          (yaml_map_add_plist "MODES_FAILED" failed (mode_node pf pr) (
            yaml_map_add_plist "MODES" modes (mode_node pf pr) (
              yaml_map_add_node
                (some "MODE_PREFERRED")
                p
                (yaml_map_add_node (some "OVERRIDES") (some n) m))))
          "OVERRIDES"
        ≡ some n
  overrides_found m n p modes failed =
      find-add_plist "MODES_FAILED" "OVERRIDES" failed (mode_node pf pr) _ refl
      ∙ find-add_plist "MODES" "OVERRIDES" modes (mode_node pf pr) _ refl
      ∙ find-add_node "MODE_PREFERRED" "OVERRIDES" p _ refl
      ∙ find_added "OVERRIDES" n m refl

  -- A client that reads a head of a response reads the opposite of an override: a head that was
  -- enabled by hand is read as one that was disabled by hand, and the other way around.
  pub override_flipped :
      (h : Head) (heads : List Head) (next : ℕ)
      → (r : Head) × (after : ℕ) × (yaml_map_into_heads pf sc
            (heads, next)
            (yaml_map_from_head pf pr h)
          ≡ (heads ++ r ∷ [], after))
        × (r.overrided_enabled ≡ opposite h.overrided_enabled)
  unfolding yaml_map_into_heads yaml_map_from_head yaml_map_to_spmap yaml_map_from_head_overrides
  override_flipped h heads next =
      let read =
        read_head pf sc next (put_pairs pf [] (entries (pairs_of (head_entries pf pr h)))) in
      (
        read.0,
        read.1,
        refl,
        ap (read_override pf) (
              get_pairs pf (entries (pairs_of (head_entries pf pr h))) "OVERRIDES"
              ∙ overrides_found (head_states pf pr h) (yaml_map_from_head_overrides h)
                  (yaml_map_from_head_mode pf pr (mode_for pf pr h h.zmode_pref))
                  (pp.vals_plist h.modes) (pp.vals_plist h.modes_failed))
            ∙ disabled_read pf h.overrided_enabled,
      )
