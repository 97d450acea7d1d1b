-- ===== src/Yaml/Parts.antt =====
-- The sets and maps of a configuration, as src/yaml/unmarshal-types.c reads them where
-- src/yaml/marshal-types.c has written them.
use text.Mathlib.Text.{◌==◌ as str_eq}
use mathlib.Core.List.{append_assoc, append-nil}
use way_displays.Prelude.{
  ◌≡◌, refl, ap, ◌∙◌, sym, false, Option, none, some, String, List, [], ◌∷◌, ◌++◌, All,
  if◌then◌else◌,
}
use way_displays.Platform.{Platform}
use way_displays.Yaml.{Node, scalar, mapping, entries, items, Scanner}
use way_displays.Yaml.Primitives.{
  put_pairs, into_col, add_name_desc, yaml_valid_name_desc, yaml_scalar_to_name_desc,
  yaml_scalar_to_string, yaml_map_to_spmap, yaml_seq_into_name_desc_sset,
}
use way_displays.Yaml.Patterns.{IsPattern}
use way_displays.Yaml.Modes.{put_new, put_valid, put_all_valid}
use way_displays.Yaml.Marshal.{Entries, nodes_of, pairs_of, scalars, of_sset}

-- No text stands in the list twice.
abbrev pub Distinct : List String → Type 0
Distinct [] = Unit
Distinct (s ∷ l) = All (λ t. str_eq s t ≡ false) l × Distinct l

abbrev pub keys : {V : Type 0} → List (String × V) → List String
keys [] = []
keys ((k, v) ∷ m) = k ∷ keys m

module _ (pf : Platform) where
  open pf use {lib}
  open lib use {sp, ss}

  -- The names are patterns that can be matched, and no two are the same.
  abbrev pub GoodNames : List String → Type 0
  GoodNames l = All (IsPattern pf) l × Distinct l

  pub Absent-later :
      (set : List String) (s : String) (l : List String)
      → ss.contains set s ≡ false
      → All (λ t. ss.contains set t ≡ false) l
      → All (λ t. str_eq s t ≡ false) l
      → All (λ t. ss.contains (set ++ s ∷ []) t ≡ false) l
  Absent-later set s [] e h d = tt
  Absent-later set s (t ∷ l) e h d = (
    ap (λ u. ss.contains u t) (sym (ss.add-append set s e))
        ∙ ss.contains-add set s t
        ∙ rw (d.0, h.0) refl,
    Absent-later set s l e h.1 d.1,
  )

  abbrev add_name : List String → Node → List String
  add_name set n = add_name_desc pf set (yaml_scalar_to_name_desc pf (some n))

  add_name-append :
      (set : List String) (s : String)
      → IsPattern pf s
      → ss.contains set s ≡ false
      → add_name set (scalar s) ≡ set ++ s ∷ []
  unfolding yaml_scalar_to_name_desc yaml_scalar_to_string
  add_name-append set s p e =
      ap (λ b. add_name_desc pf set (if b then some s else none)) p ∙ ss.add-append set s e

  names_back :
      (l set : List String)
      → GoodNames l
      → All (λ t. ss.contains set t ≡ false) l
      → into_col add_name set (items (nodes_of (scalars l))) ≡ set ++ l
  names_back [] set g h = sym (append-nil set)
  names_back (s ∷ l) set g h =
      ap (λ u. into_col add_name u (items (nodes_of (scalars l)))) (add_name-append set s g.0.0 h.0)
      ∙ names_back l (set ++ s ∷ []) (g.0.1, g.1.1) (Absent-later set s l h.0 h.1 g.1.0)
      ∙ append_assoc set (s ∷ []) l

  pub empty_contains : (l : List String) → All (λ t. ss.contains [] t ≡ false) l
  empty_contains [] = tt
  empty_contains (t ∷ l) = (ss.contains-empty t, empty_contains l)

  -- A set of good names is read as it was written.
  pub sset_back :
      (l : List String) → GoodNames l → yaml_seq_into_name_desc_sset pf [] (of_sset l) ≡ l
  unfolding yaml_seq_into_name_desc_sset
  sset_back [] g = refl
  sset_back (s ∷ l) g = names_back (s ∷ l) [] g (empty_contains (s ∷ l))

  module _ {V : Type 0} where
    -- No key of the list has a value in the map.
    abbrev pub Absent : List (String × V) → List String → Type 0
    Absent m l = All (λ k. sp.get m k ≡ none) l

    pub Absent-after :
        (m : List (String × V)) (k : String) (v : V) (l : List String)
        → sp.get m k ≡ none
        → Absent m l
        → All (λ t. str_eq k t ≡ false) l
        → Absent (m ++ (k, v) ∷ []) l
    Absent-after m k v [] e h d = tt
    Absent-after m k v (t ∷ l) e h d = (
      ap (λ u. sp.get u t) (sym (sp.put-append m k v e)) ∙ sp.get-put m k t v ∙ rw (d.0, h.0) refl,
      Absent-after m k v l e h.1 d.1,
    )

  pub all-Absent : (V : Type 0) (l : List String) → Absent {V = V} [] l
  all-Absent V [] = tt
  all-Absent V (k ∷ l) = (sp.get_lem {V = V} [] k, all-Absent V l)

  pairs_put :
      (es : Entries) (m : List (String × Node))
      → Distinct (keys es)
      → Absent m (keys es)
      → put_pairs pf m (entries (pairs_of es)) ≡ m ++ es
  unfolding put_pairs yaml_scalar_to_string
  pairs_put [] m d h = sym (append-nil m)
  pairs_put ((k, n) ∷ es) m d h =
      ap (λ u. put_pairs pf u (entries (pairs_of es))) (sp.put-append m k n h.0)
      ∙ pairs_put es (m ++ (k, n) ∷ []) d.1 (Absent-after m k n (keys es) h.0 h.1 d.0)
      ∙ append_assoc m ((k, n) ∷ []) es

  -- A mapping whose keys differ is read as its entries.
  pub pairs_back :
      (es : Entries)
      → Distinct (keys es)
      → yaml_map_to_spmap pf (some (mapping (pairs_of es))) ≡ some es
  unfolding yaml_map_to_spmap
  pairs_back es d = ap (λ m. some m) (pairs_put es [] d (all-Absent Node (keys es)))

  module _ {V : Type 0} (sc : Scanner pf.Real) (read : String → Option Node → Option V)
      (node_of : V → Node) where
    abbrev pub nodes : List (String × V) → Entries
    nodes [] = []
    nodes ((k, v) ∷ m) = (k, node_of v) ∷ nodes m

    -- Each entry is read as it was written.
    abbrev pub ReadBack : List (String × V) → Type 0
    ReadBack m = All (λ e. read e.0 (some (node_of e.1)) ≡ some e.1) m

    keys-nodes : (m : List (String × V)) → keys (nodes m) ≡ keys m
    keys-nodes [] = refl
    keys-nodes ((k, v) ∷ m) = ap (λ l. k ∷ l) (keys-nodes m)

    put_one :
        (acc : List (String × V)) (k : String) (v : V)
        → IsPattern pf k
        → read k (some (node_of v)) ≡ some v
        → sp.get acc k ≡ none
        → (if yaml_valid_name_desc pf k
            then put_new pf sc acc k (read k (some (node_of v)))
            else acc)
          ≡ acc ++ (k, v) ∷ []
    put_one acc k v p r e = rw (p, r) (sp.put_if_absent_lem acc k v e ∙ sp.put-append acc k v e)

    put_back :
        (vs acc : List (String × V))
        → GoodNames (keys vs)
        → ReadBack vs
        → Absent acc (keys vs)
        → put_valid pf sc read acc (nodes vs) ≡ acc ++ vs
    unfolding put_valid
    put_back [] acc g r h = sym (append-nil acc)
    put_back ((k, v) ∷ vs) acc g r h =
        ap (λ u. put_valid pf sc read u (nodes vs)) (put_one acc k v g.0.0 r.0 h.0)
        ∙ put_back vs (acc ++ (k, v) ∷ []) (g.0.1, g.1.1) r.1
            (Absent-after acc k v (keys vs) h.0 h.1 g.1.0)
        ∙ append_assoc acc ((k, v) ∷ []) vs

    -- A map with good keys is read as it was written.
    pub map_back :
        (vs : List (String × V))
        → GoodNames (keys vs)
        → ReadBack vs
        → put_all_valid pf sc read [] (yaml_map_to_spmap pf (some (mapping (pairs_of (nodes vs)))))
          ≡ vs
    map_back vs g r =
        ap (put_all_valid pf sc read []) (pairs_back (nodes vs) (rw (keys-nodes vs) g.1))
        ∙ put_back vs [] g r (all-Absent V (keys vs))
