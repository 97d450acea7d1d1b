-- ===== src/Enums/RoundTrip.antt =====
-- Searches of the tables of src/enum.c: a value that is printed is read back, and the one table with no
-- terminator.
use way_displays.Prelude.{
  ℕ, ◌==◌, ◌≡◌, refl, inl, inr, Bool, true, false, ◌&&◌, not, none, some, String, List, [], ◌∷◌,
  All, In, All_In, arith, Option-cases,
}
use way_displays.Prelude.Text.{
  strlen, strcasecmp, strcasecmp_refl, starts_with_case, starts_with_case_refl,
}
use way_displays.Enums.Names.{
  NameVal, _val, _val_start, val_start_in, _name, manual_overrides, cfg_elements, arranges, aligns,
  on_offs, ipc_commands, transforms, log_thresholds, displ_states, condition_lids,
  scale_round_strategies, scale_round_tos,
}

-- `s` is none of the names of the table.
abbrev pub is_fresh : List NameVal → String → Bool
is_fresh [] s = true
is_fresh (e ∷ es) s = elim e.name [ none ↦ true | some n ↦ not (strcasecmp n s) && is_fresh es s ]

-- No entry further down has a name that passes the test with `n`.
abbrev pub later : (String → String → Bool) → String → List NameVal → Bool
later test n [] = true
later test n (e ∷ es) = elim e.name [ none ↦ true | some m ↦ not (test n m) && later test n es ]

-- No name of the table passes the test with one further down, and none is empty.
abbrev pub is_distinct : (String → String → Bool) → List NameVal → Bool
is_distinct test [] = true
is_distinct test (e ∷ es) = elim e.name [
  | none ↦ true
  | some n ↦ not (strlen n == 0) && (later test n es && is_distinct test es)
]

later-_name :
    (test : String → String → Bool) (n m : String) (es : List NameVal) (v : ℕ)
    → later test n es ≡ true
    → _name es v ≡ some (some m)
    → test n m ≡ false
unfolding _name
later-_name test n m [] v h g = cc
later-_name test n m (e ∷ es) v h g = ground (arith, later-_name test n m es v)

val-_name :
    (t : List NameVal) (v : ℕ) (n : String)
    → is_distinct strcasecmp t ≡ true
    → _name t v ≡ some (some n)
    → _val t (some n) ≡ some v
unfolding _name _val
val-_name [] v n h g = cc
val-_name (e ∷ es) v n h g = elim (Option-cases e.name) [
  | inl q ↦ absurd (ground arith)
  | inr (m, q) ↦
      ground (arith, strcasecmp_refl n, val-_name es v n, later-_name strcasecmp m n es v)
]

val_start_in-_name :
    (t : List NameVal) (v : ℕ) (n : String)
    → is_distinct starts_with_case t ≡ true
    → _name t v ≡ some (some n)
    → val_start_in t n ≡ some v
unfolding _name val_start_in
val_start_in-_name [] v n h g = cc
val_start_in-_name (e ∷ es) v n h g = elim (Option-cases e.name) [
  | inl q ↦ absurd (ground arith)
  | inr (m, q) ↦ ground (
    arith,
    starts_with_case_refl n,
    val_start_in-_name es v n,
    later-_name starts_with_case m n es v,
  )
]

name_not_empty :
    (t : List NameVal) (v : ℕ) (n : String)
    → is_distinct starts_with_case t ≡ true
    → _name t v ≡ some (some n)
    → (strlen n == 0) ≡ false
unfolding _name
name_not_empty [] v n h g = cc
name_not_empty (e ∷ es) v n h g = elim (Option-cases e.name) [
  | inl q ↦ absurd (ground arith)
  | inr (m, q) ↦ ground (arith, name_not_empty es v n)
]

abbrev pub tables : List (List NameVal)
tables =
    cfg_elements ∷ arranges ∷ aligns ∷ on_offs ∷ ipc_commands ∷ transforms ∷ log_thresholds
    ∷ manual_overrides ∷ displ_states ∷ condition_lids ∷ scale_round_strategies ∷ scale_round_tos
    ∷ []

abbrev BothDistinct : List NameVal → Type 0
BothDistinct t = (is_distinct strcasecmp t ≡ true) × (is_distinct starts_with_case t ≡ true)

all_distinct : All BothDistinct tables
unfolding strcasecmp starts_with_case strlen
all_distinct = (
  (refl, refl),
  (
    (refl, refl),
    (
      (refl, refl),
      (
        (refl, refl),
        (
          (refl, refl),
          (
            (refl, refl),
            (
              (refl, refl),
              ((refl, refl), ((refl, refl), ((refl, refl), ((refl, refl), ((refl, refl), tt))))),
            ),
          ),
        ),
      ),
    ),
  ),
)

-- In every table, the name that a value is printed as is read back as that value, both where the whole
-- name is searched and where a start of a name is.
pub enum_round_trip :
    (t : List NameVal) (v : ℕ) (n : String)
    → In t tables
    → _name t v ≡ some (some n)
    → (_val t (some n) ≡ some v) × (_val_start t (some n) ≡ some v)
unfolding _val_start
enum_round_trip t v n i g =
    let (whole, start) = All_In BothDistinct tables t all_distinct i in
    (val-_name t v n whole g, rw (name_not_empty t v n start g) (val_start_in-_name t v n start g))

-- The one table with no terminator: a search for a text that is none of its names reads past its
-- end.
pub manual_override_unbounded :
    (s : String) → is_fresh manual_overrides s ≡ true → _val manual_overrides (some s) ≡ none
unfolding _val
manual_override_unbounded s h = ground arith
