-- ===== src/Yaml/DisabledBack.antt =====
-- The displays that are disabled, and their conditions, as src/yaml/unmarshal-types.c reads them where
-- src/yaml/marshal-types.c has written them.
use mathlib.Core.Bool.{false≢true}
use mathlib.Core.List.{append_assoc, append-nil}
use way_displays.Prelude.{
  ◌≡◌, refl, subst, arith, ap, ◌∙◌, sym, Bool, true, Option, none, some, String, List, [], ◌∷◌,
  ◌++◌, ◌&&◌, not, All, first, is_some, ◌==◌, if◌then◌else◌, length, or_else,
}
use way_displays.Prelude.Text.{strcasecmp}
use way_displays.Enums.{ConditionLid, condition_lid_code}
use way_displays.Enums.Names.{condition_lids, _name, _val, val_in}
use way_displays.Enums.Values.{condition_lid_val}
use way_displays.Platform.{Platform}
use way_displays.Cfg.{CfgCondition, CfgDisabled}
use way_displays.Cfg.Equal.{condition_equal}
use way_displays.Args.Element.{cfg_disabled_init}
use way_displays.Yaml.{scalar, sequence, entries, items}
use way_displays.Yaml.Primitives.{
  ◌>>=◌, put_pairs, into_col, yaml_map_to_spmap, yaml_scalar_to_enum, yaml_scalar_to_string,
  yaml_seq_into_col, yaml_valid_name_desc,
}
use way_displays.Yaml.Conditions.{
  add_condition, with_conditions, put_all_disableds, with_lid, patterns, read_lid, condition_of,
  yaml_map_into_conditions, yaml_map_to_disabled_cond, disabled_of, put_disabled, put_disableds,
  yaml_map_into_disableds,
}
use way_displays.Yaml.Marshal.{
  name_in, add_some_sset, Entries, nodes_of, pairs_of, yaml_map_add_str, yaml_map_from_condition,
  of_conditions, conditions_of, of_disableds, yaml_map_from_disableds,
}
use way_displays.Yaml.Modes.{field}
use way_displays.Yaml.Lookup.{
  find_entry, get_pairs, find-str, find-sset, find-add_str, find-add_sset, named, some_sset,
}
use way_displays.Yaml.Parts.{
  Distinct, keys, GoodNames, sset_back, pairs_back, Absent-after, all-Absent,
}

is_none : {A : Type 0} {o : Option A} → not (is_some o) ≡ true → o ≡ none
is_none {o = none} e = refl
is_none {o = some a} e = absurd (false≢true e)

-- A condition asks for something.
abbrev pub asks : CfgCondition → Bool
asks c = not (length c.plugged == 0 && length c.unplugged == 0 && not (is_some c.lid))

module _ (pf : Platform) where
  open pf use {lib}
  open lib use {sp, ss, ps}

  -- A condition has good names and asks for something.
  abbrev pub GoodCondition : CfgCondition → Type 0
  GoodCondition c = GoodNames pf c.plugged × GoodNames pf c.unplugged × (asks c ≡ true)

  abbrev new_among : List CfgCondition → CfgCondition → Bool
  new_among seen c = not (is_some (first (λ d. condition_equal pf c d) seen))

  -- None is equal to an earlier one.
  abbrev pub NoRepeat : List CfgCondition → List CfgCondition → Type 0
  NoRepeat seen [] = Unit
  NoRepeat seen (c ∷ cs) = (new_among seen c ≡ true) × NoRepeat (seen ++ c ∷ []) cs

  patterns_back : (l : List String) → GoodNames pf l → patterns pf (some_sset l) ≡ l
  patterns_back [] g = refl
  patterns_back (s ∷ l) g = sset_back pf (s ∷ l) g

  lid_back :
      (l : Option ConditionLid)
      → field none (read_lid pf) (named (name_in condition_lids condition_lid_code l)) ≡ some l
  unfolding condition_lid_val yaml_scalar_to_enum yaml_scalar_to_string _name _val val_in strcasecmp
  lid_back none = refl
  lid_back (some ConditionLid.lid_open) = refl
  lid_back (some ConditionLid.lid_closed) = refl
  lid_back (some ConditionLid.lid_not_present) = refl

  abbrev lid_name : CfgCondition → Option String
  lid_name c = name_in condition_lids condition_lid_code c.lid

  abbrev condition_entries : CfgCondition → Entries
  condition_entries c =
      yaml_map_add_str (some "LID") (lid_name c)
        (add_some_sset "UNPLUGGED" c.unplugged (add_some_sset "PLUGGED" c.plugged []))

  or_else-none : {A : Type 0} (o : Option A) → or_else o none ≡ o
  or_else-none none = refl
  or_else-none (some a) = refl

  lid_found : (c : CfgCondition) → find_entry (condition_entries c) "LID" ≡ named (lid_name c)
  lid_found c =
      find-str "LID" (lid_name c) _ refl
      ∙ ap (or_else (named (lid_name c))) (
          find-add_sset "UNPLUGGED" "LID" c.unplugged _ refl
          ∙ find-add_sset "PLUGGED" "LID" c.plugged [] refl)
      ∙ or_else-none (named (lid_name c))

  unplugged_found :
      (c : CfgCondition) → find_entry (condition_entries c) "UNPLUGGED" ≡ some_sset c.unplugged
  unplugged_found c =
      find-add_str "LID" "UNPLUGGED" (lid_name c) _ refl
      ∙ find-sset "UNPLUGGED" c.unplugged _ refl
      ∙ ap (or_else (some_sset c.unplugged)) (find-add_sset "PLUGGED" "UNPLUGGED" c.plugged [] refl)
      ∙ or_else-none (some_sset c.unplugged)

  plugged_found :
      (c : CfgCondition) → find_entry (condition_entries c) "PLUGGED" ≡ some_sset c.plugged
  plugged_found c =
      find-add_str "LID" "PLUGGED" (lid_name c) _ refl
      ∙ find-add_sset "UNPLUGGED" "PLUGGED" c.unplugged _ refl
      ∙ find-sset "PLUGGED" c.plugged [] refl
      ∙ or_else-none (some_sset c.plugged)

  kept :
      (c : CfgCondition) → asks c ≡ true → with_lid pf (some c.lid) c.plugged c.unplugged ≡ some c
  kept c e = ground (arith, e, ss.size_lem c.plugged, ss.size_lem c.unplugged)

  condition_back :
      (c : CfgCondition)
      → GoodCondition c
      → condition_of pf (put_pairs pf [] (entries (pairs_of (condition_entries c)))) ≡ some c
  unfolding condition_of
  condition_back c g =
      (λ i.
        with_lid pf
          (field none (read_lid pf)
            ((get_pairs pf (entries (pairs_of (condition_entries c))) "LID" ∙ lid_found c) i))
          (patterns pf (
            (get_pairs pf (entries (pairs_of (condition_entries c))) "PLUGGED" ∙ plugged_found c)
              i))
          (patterns pf (
            (get_pairs pf (entries (pairs_of (condition_entries c))) "UNPLUGGED"
                ∙ unplugged_found c)
              i)))
      ∙ (λ i.
          with_lid pf (lid_back c.lid i) (patterns_back c.plugged g.0 i)
            (patterns_back c.unplugged g.1 i))
      ∙ kept c g.2

  added :
      (c : CfgCondition) (seen : List CfgCondition)
      → GoodCondition c
      → new_among seen c ≡ true
      → yaml_map_into_conditions pf seen (yaml_map_from_condition c) ≡ seen ++ c ∷ []
  unfolding yaml_map_into_conditions yaml_map_to_spmap yaml_map_from_condition
  added c seen g e =
      ap (add_condition pf seen) (condition_back c g)
      ∙ ps.add-append (condition_equal pf) seen c (is_none e)

  conditions_back :
      (cs seen : List CfgCondition)
      → All GoodCondition cs
      → NoRepeat seen cs
      → into_col (yaml_map_into_conditions pf) seen (items (nodes_of (conditions_of cs)))
        ≡ seen ++ cs
  conditions_back [] seen g n = sym (append-nil seen)
  conditions_back (c ∷ cs) seen g n =
      ap (λ u. into_col (yaml_map_into_conditions pf) u (items (nodes_of (conditions_of cs))))
        (added c seen g.0 n.0)
      ∙ conditions_back cs (seen ++ c ∷ []) g.1 n.1
      ∙ append_assoc seen (c ∷ []) cs

  -- The conditions of a display are good and no two are equal.
  abbrev pub GoodDisabled : CfgDisabled → Type 0
  GoodDisabled d = All GoodCondition d.conditions × NoRepeat [] d.conditions

  some_conditions :
      (c : CfgCondition) (cs : List CfgCondition)
      → with_conditions pf (c ∷ cs, true) ≡ some (record { conditions = c ∷ cs })
  some_conditions c cs = ground (arith, ps.size_lem (c ∷ cs))

  disabled_back :
      (cs : List CfgCondition)
      → All GoodCondition cs
      → NoRepeat [] cs
      → disabled_of pf (of_conditions cs) ≡ some (record { conditions = cs })
  unfolding cfg_disabled_init yaml_map_to_disabled_cond yaml_map_to_spmap yaml_seq_into_col
  disabled_back [] g n = refl
  disabled_back (c ∷ cs) g n =
      ap
        (λ o. o >>= λ node_if.
          with_conditions pf (yaml_seq_into_col (yaml_map_into_conditions pf) [] (some node_if)))
        (get_pairs pf ((scalar "IF", sequence (nodes_of (conditions_of (c ∷ cs)))) ∷ []) "IF")
      ∙ ap (λ l. with_conditions pf (l, true)) (conditions_back (c ∷ cs) [] g n)
      ∙ some_conditions c cs

  -- The keys are good names, and each entry is good.
  abbrev pub GoodDisableds : List (String × CfgDisabled) → Type 0
  GoodDisableds m = GoodNames pf (keys m) × All (λ e. GoodDisabled e.1) m

  keys-of_disableds : (m : List (String × CfgDisabled)) → keys (of_disableds m) ≡ keys m
  keys-of_disableds [] = refl
  keys-of_disableds ((k, d) ∷ m) = ap (λ l. k ∷ l) (keys-of_disableds m)

  put_one :
      (acc : List (String × CfgDisabled)) (k : String) (d : CfgDisabled)
      → yaml_valid_name_desc pf k ≡ true
      → GoodDisabled d
      → sp.get acc k ≡ none
      → (if yaml_valid_name_desc pf k
          then put_disabled pf acc k (disabled_of pf (of_conditions d.conditions))
          else acc)
        ≡ acc ++ (k, d) ∷ []
  put_one acc k d p g e = rw (p, disabled_back d.conditions g.0 g.1) (sp.put-append acc k d e)

  put_back :
      (m acc : List (String × CfgDisabled))
      → GoodDisableds m
      → All (λ k. sp.get acc k ≡ none) (keys m)
      → put_disableds pf acc (of_disableds m) ≡ acc ++ m
  unfolding put_disableds
  put_back [] acc g h = sym (append-nil acc)
  put_back ((k, d) ∷ m) acc g h =
      ap (λ u. put_disableds pf u (of_disableds m)) (put_one acc k d g.0.0.0 g.1.0 h.0)
      ∙ put_back m (acc ++ (k, d) ∷ []) ((g.0.0.1, g.0.1.1), g.1.1)
          (Absent-after pf acc k d (keys m) h.0 h.1 g.0.1.0)
      ∙ append_assoc acc ((k, d) ∷ []) m

  -- Displays that are disabled, with good conditions, are read as they were written.
  pub disableds_back :
      (e : String × CfgDisabled) (m : List (String × CfgDisabled))
      → GoodDisableds (e ∷ m)
      → yaml_map_into_disableds pf [] (yaml_map_from_disableds (e ∷ m)) ≡ e ∷ m
  unfolding yaml_map_into_disableds yaml_map_from_disableds
  disableds_back e m g =
      ap (put_all_disableds pf []) (
        pairs_back pf (of_disableds (e ∷ m))
          (subst Distinct (sym (keys-of_disableds (e ∷ m))) g.0.1))
      ∙ put_back (e ∷ m) [] g (all-Absent pf CfgDisabled (keys (e ∷ m)))
