-- ===== src/Prelude/Lists.antt =====
-- Lists measured by native numbers, predicates over the members of a list, and the two ways in
-- which the program walks a container: all entries that pass a test, and the first of them.
use Prim.Native.Nat.{ℕ, suc, ◌+◌, ◌≤◌}
use mathlib.Core.Path.{◌≡◌, sym, ◌∙◌}
use mathlib.Core.Logic.{◌⊎◌, inl, inr}
use mathlib.Core.Bool.{Bool, true, false, false≢true}
use mathlib.Core.List.{List, [], ◌∷◌, ◌++◌}
use mathlib.Core.Option.{Option, none, some}
use native.Mathlib.Omega.{arith}
use way_displays.Prelude.Tests.{if◌then◌else◌, Bool-cases}

module _ {ℓ} {A : Type ℓ} where
  abbrev pub length : List A → ℕ
  length [] = 0
  length (x ∷ xs) = suc (length xs)

  -- Every entry that passes the test, in order.
  abbrev pub select : (A → Bool) → List A → List A
  select p [] = []
  select p (x ∷ xs) = let rest = select p xs in if p x then x ∷ rest else rest

  -- The first entry that passes the test.
  abbrev pub first : (A → Bool) → List A → Option A
  first p [] = none
  first p (x ∷ xs) = if p x then some x else first p xs

  abbrev pub is_some : Option A → Bool
  is_some none = false
  is_some (some a) = true

  abbrev pub or_else : Option A → Option A → Option A
  or_else none o = o
  or_else (some a) o = some a

  -- Every member has the property.
  abbrev pub All {κ} : (A → Type κ) → List A → Type κ
  All P [] = Unit
  All P (x ∷ xs) = P x × All P xs

  pub All-map {κ μ} :
      {P : A → Type κ} {Q : A → Type μ} (f : (a : A) → P a → Q a) (xs : List A)
      → All P xs
      → All Q xs
  All-map f [] h = tt
  All-map f (x ∷ xs) h = (f x h.0, All-map f xs h.1)

  pub length-append : (xs ys : List A) → length (xs ++ ys) ≡ length xs + length ys
  length-append [] ys = omega arith
  length-append (x ∷ xs) ys = omega (arith, length-append xs ys)

module _ {A : Type 0} where
  pub length-select : (p : A → Bool) (xs : List A) → length (select p xs) ≤ length xs
  length-select p [] = omega arith
  length-select p (x ∷ xs) = ground (arith, length-select p xs)

  -- Membership that keeps the place.
  abbrev pub In : A → List A → Type 0
  In a [] = ⊥
  In a (x ∷ xs) = (x ≡ a) ⊎ In a xs

  pub first-In : (p : A → Bool) (xs : List A) (a : A) → first p xs ≡ some a → In a xs
  first-In p [] a h = cc
  first-In p (x ∷ xs) a h = ground (arith, first-In p xs a)

  pub first_passes : (p : A → Bool) (xs : List A) (a : A) → first p xs ≡ some a → p a ≡ true
  first_passes p [] a h = cc
  first_passes p (x ∷ xs) a h = ground (arith, first_passes p xs a)

  pub first-none : (p : A → Bool) (xs : List A) (a : A) → first p xs ≡ none → In a xs → p a ≡ false
  first-none p [] a h m = absurd m
  first-none p (x ∷ xs) a h m = ground (arith, first-none p xs a)

  pub All_In {κ} : (P : A → Type κ) (xs : List A) (a : A) → All P xs → In a xs → P a
  All_In P [] a h m = absurd m
  All_In P (x ∷ xs) a h (inl e) = rw (← e) h.0
  All_In P (x ∷ xs) a h (inr m) = All_In P xs a h.1 m

  -- A member that passes the test is found.
  pub first_finds :
      (p : A → Bool) (xs : List A) (a : A) → In a xs → p a ≡ true → (b : A) × (first p xs ≡ some b)
  first_finds p [] a m h = absurd m
  first_finds p (x ∷ xs) a m h = elim (Bool-cases (p x)) [
    | inl e ↦ (x, rw e)
    | inr e ↦ elim m [
      | inl q ↦ (x, ground arith)
      | inr m' ↦ let (b, hb) = first_finds p xs a m' h in (b, rw e hb)
    ]
  ]

  -- What passes the test is selected, and nothing else is.
  pub In-select : (p : A → Bool) (x : A) (xs : List A) → In x xs → p x ≡ true → In x (select p xs)
  In-select p x [] i e = i
  In-select p x (y ∷ xs) i e = elim (Bool-cases (p y)) [
    | inl t ↦ rw t (elim i [ inl q ↦ inl q | inr j ↦ inr (In-select p x xs j e) ])
    | inr t ↦ rw t (elim i [
      | inl q ↦ absurd (false≢true (sym t ∙ (λ i. p (q i)) ∙ e))
      | inr j ↦ In-select p x xs j e
    ])
  ]

  pub select-In : (p : A → Bool) (x : A) (xs : List A) → In x (select p xs) → In x xs
  select-In p x [] i = i
  select-In p x (y ∷ xs) i = elim (Bool-cases (p y)) [
    | inl t ↦ elim ((rw t at i)) [ inl q ↦ inl q | inr j ↦ inr (select-In p x xs j) ]
    | inr t ↦ inr (select-In p x xs (rw t at i))
  ]

  pub select-passes : (p : A → Bool) (x : A) (xs : List A) → In x (select p xs) → p x ≡ true
  select-passes p x [] i = absurd i
  select-passes p x (y ∷ xs) i = elim (Bool-cases (p y)) [
    | inl t ↦ elim ((rw t at i)) [ inl q ↦ sym (λ i. p (q i)) ∙ t | inr j ↦ select-passes p x xs j ]
    | inr t ↦ select-passes p x xs (rw t at i)
  ]
