-- ===== src/Yaml/Lookup.antt =====
-- What `yaml_map_to_spmap` of src/yaml/unmarshal-primitives.c finds in a mapping: the last pair whose key is
-- the scalar.
use text.Mathlib.Text.{◌==◌ as str_eq}
use way_displays.Prelude.{
  ◌≡◌, refl, arith, Option, none, some, String, List, [], ◌∷◌, ◌++◌, true, false, or_else,
  if◌then◌else◌, ◌∙◌, ap,
}
use way_displays.Platform.{Platform}
use way_displays.Yaml.{Node, scalar, sequence, mapping, entries}
use way_displays.Yaml.Marshal.{
  Entries, of_sset, add_some_sset, yaml_map_add_sset, pairs_of, yaml_map_add_node, yaml_map_add_str,
}
use way_displays.Yaml.State.{yaml_map_add_plist}
use way_displays.Yaml.Primitives.{put_pairs, yaml_scalar_to_string}

abbrev pub find_pair : List (Node × Node) → String → Option Node
find_pair [] k = none
find_pair ((scalar s, v) ∷ rest) k =
    or_else (find_pair rest k) (if str_eq s k then some v else none)
find_pair ((_, v) ∷ rest) k = find_pair rest k

module _ (pf : Platform) where
  open pf use {lib}
  open lib use {sp}

  get-put_over :
      (o : Option Node) (m : List (String × Node)) (s k : String) (v : Node)
      → or_else o (sp.get (sp.put m s v) k)
        ≡ or_else (or_else o (if str_eq s k then some v else none)) (sp.get m k)
  get-put_over o m s k v = ground (arith, sp.get-put m s k v)

  pub get-put_pairs :
      (es : List (Node × Node)) (m : List (String × Node)) (k : String)
      → sp.get (put_pairs pf m es) k ≡ or_else (find_pair es k) (sp.get m k)
  unfolding put_pairs yaml_scalar_to_string
  get-put_pairs [] m k = refl
  get-put_pairs ((scalar s, v) ∷ es) m k =
      get-put_pairs es (sp.put m s v) k ∙ get-put_over (find_pair es k) m s k v
  get-put_pairs ((sequence ns, v) ∷ es) m k = get-put_pairs es m k
  get-put_pairs ((mapping ps, v) ∷ es) m k = get-put_pairs es m k

  or_else-none : {A : Type 0} (o : Option A) → or_else o none ≡ o
  or_else-none none = refl
  or_else-none (some a) = refl

  -- In a mapping that is read the value of the last pair counts.
  pub get_pairs :
      (es : List (Node × Node)) (k : String) → sp.get (put_pairs pf [] es) k ≡ find_pair es k
  get_pairs es k =
      get-put_pairs es [] k
      ∙ ap (or_else (find_pair es k)) (sp.get_lem {V = Node} [] k)
      ∙ or_else-none (find_pair es k)

-- The value of a mapping that is being made.
abbrev pub find_entry : Entries → String → Option Node
find_entry m k = find_pair (entries (pairs_of m)) k

find_entry-append :
    (m : Entries) (key k : String) (n : Node)
    → find_entry (m ++ (key, n) ∷ []) k
      ≡ or_else (if str_eq key k then some n else none) (find_entry m k)
find_entry-append [] key k n = ground arith
find_entry-append ((s, v) ∷ m) key k n = ground (arith, find_entry-append m key k n)

-- An entry with another key changes nothing.
find_other :
    (m : Entries) (key k : String) (n : Node)
    → str_eq key k ≡ false
    → find_entry (m ++ (key, n) ∷ []) k ≡ find_entry m k
find_other m key k n e = find_entry-append m key k n ∙ rw e refl

pub find-add_node :
    (key k : String) (n : Option Node) (m : Entries)
    → str_eq key k ≡ false
    → find_entry (yaml_map_add_node (some key) n m) k ≡ find_entry m k
unfolding yaml_map_add_node
find-add_node key k none m e = refl
find-add_node key k (some n) m e = find_other m key k n e

pub find-add_str :
    (key k : String) (s : Option String) (m : Entries)
    → str_eq key k ≡ false
    → find_entry (yaml_map_add_str (some key) s m) k ≡ find_entry m k
unfolding yaml_map_add_str
find-add_str key k none m e = refl
find-add_str key k (some s) m e = find_other m key k (scalar s) e

pub find-add_plist :
    {A : Type 0} (key k : String) (l : List A) (fn : A → Option Node) (m : Entries)
    → str_eq key k ≡ false
    → find_entry (yaml_map_add_plist key l fn m) k ≡ find_entry m k
unfolding yaml_map_add_plist
find-add_plist key k [] fn m e = refl
find-add_plist key k (a ∷ l) fn m e = find_other m key k _ e

-- The entry that was added last is found.
pub find_added :
    (key : String) (n : Node) (m : Entries)
    → str_eq key key ≡ true
    → find_entry (yaml_map_add_node (some key) (some n) m) key ≡ some n
unfolding yaml_map_add_node
find_added key n m e = find_entry-append m key key n ∙ rw e refl

abbrev pub named : Option String → Option Node
named none = none
named (some s) = some (scalar s)

pub find-str :
    (key : String) (o : Option String) (m : Entries)
    → str_eq key key ≡ true
    → find_entry (yaml_map_add_str (some key) o m) key ≡ or_else (named o) (find_entry m key)
unfolding yaml_map_add_str
find-str key none m e = refl
find-str key (some s) m e = find_entry-append m key key (scalar s) ∙ rw e refl

-- A set that has a value.
abbrev pub some_sset : List String → Option Node
some_sset [] = none
some_sset (s ∷ l) = some (of_sset (s ∷ l))

pub find-sset :
    (key : String) (l : List String) (m : Entries)
    → str_eq key key ≡ true
    → find_entry (add_some_sset key l m) key ≡ or_else (some_sset l) (find_entry m key)
unfolding yaml_map_add_sset yaml_map_add_node
find-sset key [] m e = refl
find-sset key (s ∷ l) m e = find_entry-append m key key (of_sset (s ∷ l)) ∙ rw e refl

pub find-add_sset :
    (key k : String) (l : List String) (m : Entries)
    → str_eq key k ≡ false
    → find_entry (add_some_sset key l m) k ≡ find_entry m k
unfolding yaml_map_add_sset yaml_map_add_node
find-add_sset key k [] m e = refl
find-add_sset key k (s ∷ l) m e = find_other m key k (of_sset (s ∷ l)) e
