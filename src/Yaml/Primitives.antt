-- ===== src/Yaml/Primitives.antt =====
-- src/yaml/unmarshal-primitives.c. A node that may be NULL is an `Option`.
use way_displays.Prelude.{
  ◌==◌, ℤ, Bool, true, false, Option, none, some, String, List, [], ◌∷◌, if◌then◌else◌,
}
use Prim.Native.Char.{code}
use way_displays.Enums.{OnOff}
use way_displays.Enums.Values.{on_off_val}
use way_displays.Platform.{Platform}
use way_displays.Regx.{regex_compiles}
use way_displays.Yaml.{Node, scalar, sequence, mapping, items, entries, Scanner}

infixl 5 ◌>>=◌
abbrev pub ◌>>=◌ : {A B : Type 0} → Option A → (A → Option B) → Option B
none >>= f = none
some a >>= f = f a

-- A node that is a scalar; its text.
unfoldable pub yaml_scalar_to_string : Option Node → Option String
yaml_scalar_to_string (some (scalar s)) = some s
yaml_scalar_to_string _ = none

abbrev pub or_default : {A : Type 0} → A → Option A → A
or_default d none = d
or_default d (some a) = a

unfoldable pub yaml_scalar_to_string_def : String → Option Node → String
unfolding yaml_scalar_to_string
yaml_scalar_to_string_def def n = or_default def (yaml_scalar_to_string n)

-- The enumerator that `val` gives for the text, if any.
unfoldable pub yaml_scalar_to_enum :
    {A : Type 0} → (Option String → Option A) → Option Node → Option A
unfolding yaml_scalar_to_string
yaml_scalar_to_enum val n = yaml_scalar_to_string n >>= λ s. val (some s)

unfoldable pub yaml_scalar_to_enum_def :
    {A : Type 0} → A → (Option String → Option A) → Option Node → A
unfolding yaml_scalar_to_enum
yaml_scalar_to_enum_def def val n = or_default def (yaml_scalar_to_enum val n)

abbrev pub is_on : OnOff → Bool
is_on OnOff.on = true
is_on OnOff.off = false

unfoldable pub yaml_scalar_to_boolean : Option Node → Option Bool
unfolding yaml_scalar_to_enum
yaml_scalar_to_boolean n = yaml_scalar_to_enum on_off_val n >>= λ v. some (is_on v)

abbrev pub on_or_off : Bool → OnOff
on_or_off true = OnOff.on
on_or_off false = OnOff.off

unfoldable pub yaml_scalar_to_on_off_def : OnOff → Option Node → OnOff
unfolding yaml_scalar_to_boolean
yaml_scalar_to_on_off_def def n =
    or_default def (yaml_scalar_to_boolean n >>= λ b. some (on_or_off b))

-- Each item of a sequence goes into the collection; `false` where the node is no sequence.
abbrev pub into_col : {C : Type 0} → (C → Node → C) → C → List Node → C
into_col into col [] = col
into_col into col (n ∷ ns) = into_col into (into col n) ns

unfoldable pub yaml_seq_into_col : {C : Type 0} → (C → Node → C) → C → Option Node → C × Bool
yaml_seq_into_col into col (some (sequence ns)) = (into_col into col (items ns), true)
yaml_seq_into_col into col _ = (col, false)

-- A text after a leading `!` must compile as a regular expression.
module _ (pf : Platform) where
  open pf use {lib, Real}
  open lib use {sp, ss}

  abbrev pub behind_bang : String → Option String
  behind_bang String.[] = none
  behind_bang (String.◌∷◌ c String.[]) = none
  behind_bang (String.◌∷◌ c rest) = if code c == b'!' then some rest else none

  unfoldable pub yaml_valid_name_desc : String → Bool
  yaml_valid_name_desc pattern = elim (behind_bang pattern) [
    | none ↦ true
    | some rest ↦ regex_compiles pf (some rest)
  ]

  abbrev if_valid : String → Option String
  if_valid s = if yaml_valid_name_desc s then some s else none

  unfoldable pub yaml_scalar_to_name_desc : Option Node → Option String
  unfolding yaml_scalar_to_string yaml_valid_name_desc
  yaml_scalar_to_name_desc n = yaml_scalar_to_string n >>= if_valid

  -- The scalar keys with their nodes, of which a later one replaces an earlier.
  abbrev pub add_pair : List (String × Node) → Option String → Node → List (String × Node)
  add_pair m none v = m
  add_pair m (some key) v = sp.put m key v

  unfoldable pub put_pairs : List (String × Node) → List (Node × Node) → List (String × Node)
  unfolding yaml_scalar_to_string
  put_pairs m [] = m
  put_pairs m ((k, v) ∷ rest) = put_pairs (add_pair m (yaml_scalar_to_string (some k)) v) rest

  unfoldable pub yaml_map_to_spmap : Option Node → Option (List (String × Node))
  unfolding put_pairs
  yaml_map_to_spmap (some (mapping ps)) = some (put_pairs [] (entries ps))
  yaml_map_to_spmap _ = none

  -- The valid patterns of a sequence; anything else is as an empty one.
  abbrev pub add_name_desc : List String → Option String → List String
  add_name_desc set none = set
  add_name_desc set (some s) = ss.add set s

  unfoldable pub yaml_seq_into_name_desc_sset : List String → Node → List String
  unfolding yaml_scalar_to_name_desc
  yaml_seq_into_name_desc_sset set (sequence ns) =
      into_col (λ s n. add_name_desc s (yaml_scalar_to_name_desc (some n))) set (items ns)
  yaml_seq_into_name_desc_sset set _ = set

module _ (pf : Platform) (sc : Scanner pf.Real) where
  open pf use {Real}

  unfoldable pub yaml_scalar_to_int : Option Node → Option ℤ
  unfolding yaml_scalar_to_string
  yaml_scalar_to_int n = yaml_scalar_to_string n >>= sc.scan_int

  unfoldable pub yaml_scalar_to_float : Option Node → Option Real
  unfolding yaml_scalar_to_string
  yaml_scalar_to_float n = yaml_scalar_to_string n >>= sc.scan_float
