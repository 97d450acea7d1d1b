-- ===== src/Yaml/DisabledPatterns.antt =====
-- What src/yaml reads of the displays that are disabled: their names, and those of the displays in their
-- conditions, are patterns that can be matched.
use text.Mathlib.Text.{◌==◌ as str_eq}
use mathlib.Core.Option.{some-injective}
use way_displays.Prelude.{
  ◌≡◌, subst, inl, inr, Bool, true, Option, none, some, String, List, [], ◌∷◌, ◌++◌, All,
  Bool-cases, Option-cases, pick, first, if◌then◌else◌,
}
use way_displays.Platform.{Platform}
use way_displays.Enums.{ConditionLid}
use way_displays.Cfg.{CfgCondition, CfgDisabled}
use way_displays.Cfg.Equal.{condition_equal}
use way_displays.Args.Element.{cfg_disabled_init}
use way_displays.Yaml.{Node, scalar, sequence, mapping, items}
use way_displays.Yaml.Primitives.{
  ◌>>=◌, yaml_seq_into_col, yaml_map_to_spmap, yaml_scalar_to_name_desc, yaml_valid_name_desc,
}
use way_displays.Yaml.Modes.{field}
use way_displays.Yaml.Conditions.{
  patterns, read_lid, is_empty, with_lid, condition_of, add_condition, yaml_map_into_conditions,
  with_conditions, yaml_map_to_disabled_cond, disabled_of, put_disabled, put_disableds,
  put_all_disableds, yaml_map_into_disableds,
}
use way_displays.Yaml.Version1.{
  named, plain_disabled, with_disabled, disabled_in, conditions_in, yaml_node_into_disableds_v1,
}
use way_displays.Yaml.Patterns.{
  into_col-Keeps, IsPattern, AllValid, Names, name_desc-Names, Named, map-Named, same_IsPattern,
  empty-AllValid, seq-AllValid,
}

module _ {A : Type 0} (P : A → Type 0) where
  abbrev OnSome : Option A → Type 0
  OnSome none = Unit
  OnSome (some a) = P a

  bind-OnSome :
      {B : Type 0} (o : Option B) (f : B → Option A) → ((b : B) → OnSome (f b)) → OnSome (o >>= f)
  bind-OnSome none f h = tt
  bind-OnSome (some b) f h = h b

  All_append : (l : List A) (a : A) → All P l → P a → All P (l ++ a ∷ [])
  All_append [] a h p = (p, tt)
  All_append (b ∷ l) a h p = (h.0, All_append l a h.1 p)

module _ (pf : Platform) where
  open pf use {lib}
  open lib use {sp, ss, ps}

  abbrev pub ConditionValid : CfgCondition → Type 0
  ConditionValid c = AllValid pf c.plugged × AllValid pf c.unplugged

  abbrev pub ConditionsValid : CfgDisabled → Type 0
  ConditionsValid d = All ConditionValid d.conditions

  -- The names of the displays that are disabled, and all names in their conditions.
  abbrev pub DisabledsValid : List (String × CfgDisabled) → Type 0
  DisabledsValid m =
      (k : String) (d : CfgDisabled) → sp.get m k ≡ some d → IsPattern pf k × ConditionsValid d

  patterns-AllValid : (o : Option Node) → AllValid pf (patterns pf o)
  patterns-AllValid none = empty-AllValid pf
  patterns-AllValid (some n) = seq-AllValid pf [] n (empty-AllValid pf)

  with_lid-valid :
      (lid : Option (Option ConditionLid)) (p u : List String)
      → AllValid pf p
      → AllValid pf u
      → OnSome ConditionValid (with_lid pf lid p u)
  with_lid-valid none p u h k = tt
  with_lid-valid (some lid) p u h k =
      let c : CfgCondition = record { plugged = p; unplugged = u; lid = lid } in
      pick (OnSome ConditionValid) (is_empty pf c) none (some c) (λ e. tt) (λ e. (h, k))

  condition-valid : (m : List (String × Node)) → OnSome ConditionValid (condition_of pf m)
  unfolding condition_of
  condition-valid m =
      with_lid-valid (field none (read_lid pf) (sp.get m "LID")) (patterns pf (sp.get m "PLUGGED"))
        (patterns pf (sp.get m "UNPLUGGED")) (patterns-AllValid (sp.get m "PLUGGED"))
        (patterns-AllValid (sp.get m "UNPLUGGED"))

  add_condition-valid :
      (l : List CfgCondition) (o : Option CfgCondition)
      → OnSome ConditionValid o
      → All ConditionValid l
      → All ConditionValid (add_condition pf l o)
  add_condition-valid l none v h = h
  add_condition-valid l (some c) v h = elim (Option-cases (first (λ b. condition_equal pf c b) l)) [
    | inl e ↦ rw (ps.add-append (condition_equal pf) l c e) (All_append ConditionValid l c h v)
    | inr (b, e) ↦ rw (ps.add_present (condition_equal pf) l c b e) h
  ]

  into_conditions-valid :
      (l : List CfgCondition) (n : Node)
      → All ConditionValid l
      → All ConditionValid (yaml_map_into_conditions pf l n)
  unfolding yaml_map_into_conditions
  into_conditions-valid l n h =
      add_condition-valid l (yaml_map_to_spmap pf (some n) >>= condition_of pf)
        (bind-OnSome ConditionValid (yaml_map_to_spmap pf (some n)) (condition_of pf)
          condition-valid)
        h

  seq-valid :
      (l : List CfgCondition) (o : Option Node)
      → All ConditionValid l
      → All ConditionValid (yaml_seq_into_col (yaml_map_into_conditions pf) l o).0
  unfolding yaml_seq_into_col
  seq-valid l none h = h
  seq-valid l (some (scalar s)) h = h
  seq-valid l (some (mapping es)) h = h
  seq-valid l (some (sequence ns)) h =
      into_col-Keeps (All ConditionValid) (yaml_map_into_conditions pf) l (items ns)
        into_conditions-valid h

  with_conditions-valid :
      (l : List CfgCondition) (read : Bool)
      → All ConditionValid l
      → OnSome ConditionsValid (with_conditions pf (l, read))
  with_conditions-valid l read h =
      pick (OnSome ConditionsValid) _ (some (record { conditions = l })) none (λ e. h) (λ e. tt)

  disabled-valid : (n : Node) → OnSome ConditionsValid (disabled_of pf n)
  unfolding yaml_map_to_disabled_cond cfg_disabled_init
  disabled-valid (scalar s) = tt
  disabled-valid (sequence ns) = tt
  disabled-valid (mapping es) =
      bind-OnSome ConditionsValid (yaml_map_to_spmap pf (some (mapping es))) _ λ m.
        bind-OnSome ConditionsValid (sp.get m "IF") _ λ node_if.
          let read = yaml_seq_into_col (yaml_map_into_conditions pf) [] (some node_if) in
          with_conditions-valid read.0 read.1 (seq-valid [] (some node_if) tt)

  pub empty-DisabledsValid : DisabledsValid []
  empty-DisabledsValid k d g = absurd (cc (sp.get_lem {V = CfgDisabled} [] k, g))

  entry-valid :
      (k j : String) (d : CfgDisabled)
      → str_eq k j ≡ true
      → IsPattern pf k
      → ConditionsValid d
      → IsPattern pf j × ConditionsValid d
  entry-valid k j d e p v = (same_IsPattern pf k j e p, v)

  put-valid :
      (m : List (String × CfgDisabled)) (k : String) (d : CfgDisabled)
      → IsPattern pf k
      → ConditionsValid d
      → DisabledsValid m
      → DisabledsValid (sp.put m k d)
  put-valid m k d p v h j x g = elim (Bool-cases (str_eq k j)) [
    | inl e ↦
        entry-valid k j x e p
          (subst ConditionsValid (some-injective _ _ (rw (sp.get-put m k j d, e) at g)) v)
    | inr e ↦ h j x (rw (sp.get-put m k j d, e) at g)
  ]

  put_if_absent-valid :
      (m : List (String × CfgDisabled)) (k : String) (d : CfgDisabled)
      → IsPattern pf k
      → ConditionsValid d
      → DisabledsValid m
      → DisabledsValid (sp.put_if_absent m k d)
  put_if_absent-valid m k d p v h j x g = elim (Bool-cases (str_eq k j)) [
    | inl e ↦ entry-valid k j x e p (elim (Option-cases (sp.get m k)) [
      | inl q ↦
          subst ConditionsValid (some-injective _ _ (rw (sp.get-put_if_absent m k j d, e, q) at g))
            v
      | inr (y, q) ↦
          subst ConditionsValid (some-injective _ _ (rw (sp.get-put_if_absent m k j d, e, q) at g))
            (h k y q).1
    ])
    | inr e ↦ h j x (rw (sp.get-put_if_absent m k j d, e) at g)
  ]

  put_disabled-valid :
      (m : List (String × CfgDisabled)) (k : String) (o : Option CfgDisabled)
      → IsPattern pf k
      → OnSome ConditionsValid o
      → DisabledsValid m
      → DisabledsValid (put_disabled pf m k o)
  put_disabled-valid m k none p v h = h
  put_disabled-valid m k (some d) p v h = put-valid m k d p v h

  put_disableds-valid :
      (m : List (String × CfgDisabled)) (es : List (String × Node))
      → DisabledsValid m
      → DisabledsValid (put_disableds pf m es)
  unfolding put_disableds
  put_disableds-valid m [] h = h
  put_disableds-valid m ((k, n) ∷ es) h =
      put_disableds-valid
        (if yaml_valid_name_desc pf k then put_disabled pf m k (disabled_of pf n) else m) es
        (pick DisabledsValid (yaml_valid_name_desc pf k) (put_disabled pf m k (disabled_of pf n)) m
          (λ e. put_disabled-valid m k (disabled_of pf n) e (disabled-valid n) h) (λ e. h))

  all_disableds-valid :
      (m : List (String × CfgDisabled)) (o : Option (List (String × Node)))
      → DisabledsValid m
      → DisabledsValid (put_all_disableds pf m o)
  all_disableds-valid m none h = h
  all_disableds-valid m (some es) h = put_disableds-valid m es h

  pub disableds-valid :
      (m : List (String × CfgDisabled)) (n : Node)
      → DisabledsValid m
      → DisabledsValid (yaml_map_into_disableds pf m n)
  unfolding yaml_map_into_disableds
  disableds-valid m n h = all_disableds-valid m (yaml_map_to_spmap pf (some n)) h

  plain-valid :
      (m : List (String × CfgDisabled)) (o : Option String)
      → Names pf o
      → DisabledsValid m
      → DisabledsValid (plain_disabled pf m o)
  unfolding cfg_disabled_init
  plain-valid m none p h = h
  plain-valid m (some name) p h = put_if_absent-valid m name cfg_disabled_init p tt h

  disabled_in-valid :
      (m : List (String × CfgDisabled)) (name : String)
      → DisabledsValid m
      → ConditionsValid (disabled_in pf m name)
  unfolding cfg_disabled_init
  disabled_in-valid m name h = elim (Option-cases (sp.get m name)) [
    | inl q ↦ rw (q, disabled_in) tt
    | inr (d, q) ↦ rw (q, disabled_in) (h name d q).1
  ]

  with-valid :
      (m : List (String × CfgDisabled)) (o : Option (String × List (String × Node)))
      → Named pf o
      → DisabledsValid m
      → DisabledsValid (with_disabled pf m o)
  with-valid m none p h = h
  with-valid m (some (name, es)) p h =
      put-valid m name (conditions_in pf es (disabled_in pf m name)) p
        (seq-valid (disabled_in pf m name).conditions (sp.get es "IF") (disabled_in-valid m name h))
        h

  pub disableds_v1-valid :
      (m : List (String × CfgDisabled)) (n : Node)
      → DisabledsValid m
      → DisabledsValid (yaml_node_into_disableds_v1 pf m n)
  unfolding yaml_node_into_disableds_v1
  disableds_v1-valid m (scalar s) h =
      plain-valid m (yaml_scalar_to_name_desc pf (some (scalar s)))
        (name_desc-Names pf (some (scalar s))) h
  disableds_v1-valid m (mapping es) h =
      with-valid m (named pf (λ name_desc es. some es) (mapping es))
        (map-Named pf (λ name_desc es. some es) (yaml_map_to_spmap pf (some (mapping es)))) h
  disableds_v1-valid m (sequence ns) h = h
