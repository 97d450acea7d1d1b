-- ===== src/Yaml/Patterns.antt =====
-- What src/yaml reads as the name of a display is a pattern that can be matched.
use text.Mathlib.Text.{◌==◌ as str_eq}
use text.Mathlib.TextEquality.{eq_iff}
use mathlib.Core.Bool.{false≢true}
use way_displays.Prelude.{
  ◌≡◌, sym, ap, subst, ◌∙◌, inl, inr, true, Option, none, some, String, List, [], ◌∷◌, is_some,
  arith, Bool-cases, pick,
}
use way_displays.Platform.{Platform}
use way_displays.Yaml.{Node, scalar, sequence, mapping, items}
use way_displays.Yaml.Primitives.{
  ◌>>=◌, into_col, yaml_valid_name_desc, yaml_scalar_to_string, yaml_scalar_to_name_desc,
  yaml_map_to_spmap, yaml_seq_into_name_desc_sset, add_name_desc,
}
use way_displays.Yaml.Version1.{named, put_named}

pub into_col-Keeps :
    {C : Type 0} (P : C → Type 0) (into : C → Node → C) (c : C) (ns : List Node)
    → ((c : C) (n : Node) → P c → P (into c n))
    → P c
    → P (into_col into c ns)
into_col-Keeps P into c [] k p = p
into_col-Keeps P into c (n ∷ ns) k p = into_col-Keeps P into (into c n) ns k (k c n p)

module _ (pf : Platform) where
  open pf use {lib}
  open lib use {sp, ss}

  -- The name is no regular expression, or one that compiles.
  abbrev pub IsPattern : String → Type 0
  IsPattern name = yaml_valid_name_desc pf name ≡ true

  abbrev pub KeysValid : {V : Type 0} → List (String × V) → Type 0
  KeysValid m = (k : String) → is_some (sp.get m k) ≡ true → IsPattern k

  abbrev pub AllValid : List String → Type 0
  AllValid s = (a : String) → ss.contains s a ≡ true → IsPattern a

  pub same_IsPattern : (k j : String) → str_eq k j ≡ true → IsPattern k → IsPattern j
  same_IsPattern k j e p = subst IsPattern ((eq_iff k j).0 e) p

  pub empty-KeysValid : (V : Type 0) → KeysValid {V = V} []
  empty-KeysValid V k g = absurd (false≢true (sym (ap is_some (sp.get_lem {V = V} [] k)) ∙ g))

  pub put_if_absent-KeysValid :
      {V : Type 0} (m : List (String × V)) (k : String) (v : V)
      → IsPattern k
      → KeysValid m
      → KeysValid (sp.put_if_absent m k v)
  put_if_absent-KeysValid m k v p h j g = elim (Bool-cases (str_eq k j)) [
    | inl e ↦ same_IsPattern k j e p
    | inr e ↦ h j (rw (sp.get-put_if_absent m k j v, e) at g)
  ]

  pub empty-AllValid : AllValid []
  empty-AllValid a g = absurd (ground (arith, g, ss.contains-empty a))

  add-AllValid : (s : List String) (a : String) → IsPattern a → AllValid s → AllValid (ss.add s a)
  add-AllValid s a p h b g = elim (Bool-cases (str_eq a b)) [
    | inl e ↦ same_IsPattern a b e p
    | inr e ↦ h b (rw (ss.contains-add s a b, e) at g)
  ]

  -- What is read as a name is a pattern.
  abbrev pub Names : Option String → Type 0
  Names none = Unit
  Names (some s) = IsPattern s

  pub name_desc-Names : (n : Option Node) → Names (yaml_scalar_to_name_desc pf n)
  unfolding yaml_scalar_to_name_desc yaml_scalar_to_string
  name_desc-Names none = tt
  name_desc-Names (some (scalar s)) = pick Names (yaml_valid_name_desc pf s) _ _ (λ e. e) (λ e. tt)
  name_desc-Names (some (sequence ns)) = tt
  name_desc-Names (some (mapping ps)) = tt

  add_name_desc-AllValid :
      (s : List String) (o : Option String) → Names o → AllValid s → AllValid (add_name_desc pf s o)
  add_name_desc-AllValid s none p h = h
  add_name_desc-AllValid s (some a) p h = add-AllValid s a p h

  pub seq-AllValid :
      (s : List String) (n : Node) → AllValid s → AllValid (yaml_seq_into_name_desc_sset pf s n)
  unfolding yaml_seq_into_name_desc_sset
  seq-AllValid s (scalar t) h = h
  seq-AllValid s (sequence ns) h =
      into_col-Keeps AllValid _ s (items ns)
        (λ t n p.
          add_name_desc-AllValid t (yaml_scalar_to_name_desc pf (some n)) (name_desc-Names (some n))
            p)
        h
  seq-AllValid s (mapping ps) h = h

  -- The entry of an item of version 1 is named by a pattern.
  abbrev pub Named : {V : Type 0} → Option (String × V) → Type 0
  Named none = Unit
  Named (some (name, v)) = IsPattern name

  keyed-Named :
      {V : Type 0} (name : String) (o : Option V)
      → IsPattern name
      → Named (o >>= λ v. some (name, v))
  keyed-Named name none p = tt
  keyed-Named name (some v) p = p

  read-Named :
      {V : Type 0} (read : String → List (String × Node) → Option V) (m : List (String × Node))
      (o : Option String)
      → Names o
      → Named (o >>= λ name. read name m >>= λ v. some (name, v))
  read-Named read m none p = tt
  read-Named read m (some name) p = keyed-Named name (read name m) p

  pub map-Named :
      {V : Type 0} (read : String → List (String × Node) → Option V)
      (o : Option (List (String × Node)))
      → Named (
          o >>= λ m. yaml_scalar_to_name_desc pf (sp.get m "NAME_DESC") >>= λ name.
          read name m >>= λ v. some (name, v))
  map-Named read none = tt
  map-Named read (some m) =
      read-Named read m (yaml_scalar_to_name_desc pf (sp.get m "NAME_DESC"))
        (name_desc-Names (sp.get m "NAME_DESC"))

  pub Named-KeysValid :
      {V : Type 0} (m : List (String × V)) (o : Option (String × V))
      → Named o
      → KeysValid m
      → KeysValid (put_named pf m o)
  Named-KeysValid m none p h = h
  Named-KeysValid m (some (name, v)) p h = put_if_absent-KeysValid m name v p h

  pub item-KeysValid :
      {V : Type 0} (read : String → List (String × Node) → Option V) (m : List (String × V))
      (n : Node)
      → KeysValid m
      → KeysValid (put_named pf m (named pf read n))
  item-KeysValid read m n h =
      Named-KeysValid m (named pf read n) (map-Named read (yaml_map_to_spmap pf (some n))) h
