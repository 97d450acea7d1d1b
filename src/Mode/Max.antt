-- ===== src/Mode/Max.antt =====
-- What `mode_max` of mode.c finds.
use way_displays.Prelude.{
  ℕ, ◌≡◌, refl, sym, subst, Option-cases, ◌∙◌, ◌⊎◌, inl, inr, some, List, [], ◌∷◌, In, arith, ◌≤ℤ◌,
}
use mathlib.Core.Option.{some-injective}
use way_displays.Mode.{Mode, area, mode_max_step, mode_max_from, mode_max}
use way_displays.Mode.Best.{values}

-- `m` has no larger area than `best`, nor a higher refresh at the same resolution.
pub record Bounded (best m : Mode) : Type 0 where
  pub smaller : area m ≤ℤ area best
  pub slower : m.width ≡ best.width → m.height ≡ best.height → m.refresh_mhz ≤ℤ best.refresh_mhz

Bounded-refl : (m : Mode) → Bounded m m
Bounded-refl m = ground arith

same_area : (a b : Mode) → a.width ≡ b.width → a.height ≡ b.height → area a ≡ area b
unfolding area
same_area a b p q = rw (p, q)

step_total : (best m : Mode) → (r : Mode) × (mode_max_step (some best) m ≡ some r)
unfolding mode_max_step
step_total best m = elim (Option-cases (mode_max_step (some best) m)) [
  | inl e ↦ absurd (ground arith)
  | inr h ↦ h
]

step-Bounded :
    (best m n : Mode) {r : Mode}
    → Bounded best n
    → mode_max_step (some best) m ≡ some r
    → Bounded r n × Bounded r m × ((r ≡ best) ⊎ (r ≡ m))
unfolding mode_max_step
step-Bounded best m n b h = ground (arith, same_area n m, same_area m best, same_area n best)

-- The loop ends with a mode that bounds what the mode so far bounded and all that follow, and that
-- is the mode so far or one of those.
from-Bounded :
    (best : Mode) (modes : List (ℕ × Mode))
    → (r : Mode) × (mode_max_from (some best) modes ≡ some r)
      × ((r ≡ best) ⊎ In r (values modes))
      × ((n : Mode) → (Bounded best n) ⊎ In n (values modes) → Bounded r n)
unfolding mode_max_from
from-Bounded best [] = (best, refl, inl refl, λ n. elim [ inl b ↦ b | inr i ↦ absurd i ])
from-Bounded best ((k, m) ∷ rest) =
    let (b, e) = step_total best m in
    let (r, f, i, all) = from-Bounded b rest in
    (
      r,
      rw e f,
      elim i [
        | inl p ↦ elim (step-Bounded best m best (Bounded-refl best) e).2 [
          | inl q ↦ inl (p ∙ q)
          | inr q ↦ inr (inl (sym (p ∙ q)))
        ]
        | inr j ↦ inr (inr j)
      ],
      λ n. elim [
        | inl old ↦ all n (inl (step-Bounded best m n old e).0)
        | inr (inl here) ↦
            all n (inl (subst (Bounded b) here (step-Bounded best m best (Bounded-refl best) e).1))
        | inr (inr later) ↦ all n (inr later)
      ],
    )

-- A head that has modes has a maximum among them: no mode of the head has a larger area, and none
-- of the resolution of the maximum has a higher refresh.
pub max_lem :
    (k : ℕ) (m : Mode) (rest : List (ℕ × Mode))
    → (r : Mode) × (mode_max ((k, m) ∷ rest) ≡ some r)
      × In r (values ((k, m) ∷ rest))
      × ((n : Mode) → In n (values ((k, m) ∷ rest)) → Bounded r n)
unfolding mode_max mode_max_from mode_max_step
max_lem k m rest =
    let (r, f, i, all) = from-Bounded m rest in
    (
      r,
      f,
      elim i [ inl p ↦ inl (sym p) | inr j ↦ inr j ],
      λ n. elim [
        | inl here ↦ all n (inl (subst (Bounded m) here (Bounded-refl m)))
        | inr later ↦ all n (inr later)
      ],
    )

-- No mode of a head has a larger area than its maximum, and none at the resolution of the maximum has
-- a higher refresh.
pub max_bounds :
    (modes : List (ℕ × Mode)) (r n : Mode)
    → mode_max modes ≡ some r
    → In n (values modes)
    → Bounded r n
unfolding mode_max
max_bounds [] r n q i = absurd i
max_bounds ((k, m) ∷ rest) r n q i =
    let (c, g, _, all) = max_lem k m rest in
    subst (λ x. Bounded x n) (some-injective _ _ (sym g ∙ q)) (all n i)
