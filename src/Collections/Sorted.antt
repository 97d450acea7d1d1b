-- ===== src/Collections/Sorted.antt =====
-- Searching a sorted list from the front finds an entry that no other match precedes.
use way_displays.Prelude.{
  ◌≡◌, inl, inr, Bool, true, false, some, List, [], ◌∷◌, In, All_In, first, arith, Bool-cases,
}
use way_displays.Collections.{IsLess, Ordered}

irreflexive : {A : Type 0} (less : A → A → Bool) (a : A) → IsLess less → less a a ≡ false
irreflexive less a v = elim (Bool-cases (less a a)) [ inl e ↦ v.asymm a a e | inr e ↦ e ]

pub first-Ordered :
    {A : Type 0} (less p : A → A → Bool) (t : A) (xs : List A) (r m : A)
    → IsLess less
    → Ordered less xs
    → first (p t) xs ≡ some r
    → In m xs
    → p t m ≡ true
    → less m r ≡ false
first-Ordered less p t [] r m v o e i h = absurd i
first-Ordered less p t (x ∷ xs) r m v o e i h = elim (Bool-cases (p t x)) [
  | inl hit ↦ elim i [
    | inl here ↦ ground (arith, irreflexive less r v)
    | inr later ↦ ground (arith, All_In (λ y. less y x ≡ false) xs m o.0 later)
  ]
  | inr miss ↦ elim i [
    | inl here ↦ ground arith
    | inr later ↦ ground (arith, first-Ordered less p t xs r m v o.1)
  ]
]
