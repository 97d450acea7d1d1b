-- ===== src/Desire/Line.antt =====
-- Heads that stand in a line, of which a row and a column are the two kinds: where each begins along the
-- line and how long it is, and where it begins across the line and how broad it is.
use mathlib.Core.Bool.{false≢true}
use way_displays.Prelude.{
  ◌∙◌, All-map, ℤ, pos, ◌+ℤ◌, ◌≤ℤ◌, int_laws, ◌≡◌, sym, subst, inl, inr, true, List, [], ◌∷◌, All,
  if◌then◌else◌, arith, Bool-cases,
}
use way_displays.Head.{Head}
use way_displays.Desire.Positions.{is_placed}

onwards : (p n q : ℤ) → pos 0 ≤ℤ n → p +ℤ n ≤ℤ q → p ≤ℤ q
onwards p n q g h = omega int_laws

module _ (along extent across breadth : Head → ℤ) where
  -- The heads that are placed stand side by side from `p` on: each begins where the one before ends,
  -- and stays between 0 and `broadest` across.
  abbrev pub InLine : ℤ → ℤ → List Head → Type 0
  InLine broadest p [] = Unit
  InLine broadest p (h ∷ hs) =
      (is_placed h ≡ true
        → (along h ≡ p) × (pos 0 ≤ℤ across h) × (across h +ℤ breadth h ≤ℤ broadest))
      × InLine broadest (if is_placed h then p +ℤ extent h else p) hs

  -- Of two heads that are placed, the later begins where the earlier ends or further on.
  abbrev pub Apart : List Head → Type 0
  Apart [] = Unit
  Apart (h ∷ hs) =
      (is_placed h ≡ true → All (λ g. is_placed g ≡ true → along h +ℤ extent h ≤ℤ along g) hs)
      × Apart hs

  InLine-from :
      (broadest p : ℤ) (hs : List Head)
      → All (λ h. pos 0 ≤ℤ extent h) hs
      → InLine broadest p hs
      → All (λ g. is_placed g ≡ true → p ≤ℤ along g) hs
  InLine-from broadest p [] w r = tt
  InLine-from broadest p (h ∷ hs) w r = elim (Bool-cases (is_placed h)) [
    | inl e ↦ (
      λ q. ground (arith, r.0 q),
      All-map (λ g k q. onwards p (extent h) (along g) w.0 (k q)) hs
          (InLine-from broadest (p +ℤ extent h) hs w.1 (rw e at r.1)),
    )
    | inr e ↦ (λ q. absurd (false≢true (sym e ∙ q)), InLine-from broadest p hs w.1 (rw e at r.1))
  ]

  pub InLine-Apart :
      (broadest p : ℤ) (hs : List Head)
      → All (λ h. pos 0 ≤ℤ extent h) hs
      → InLine broadest p hs
      → Apart hs
  InLine-Apart broadest p [] w r = tt
  InLine-Apart broadest p (h ∷ hs) w r = (
    λ q.
        subst (λ z. All (λ g. is_placed g ≡ true → z +ℤ extent h ≤ℤ along g) hs) (sym (r.0 q).0)
          (InLine-from broadest (p +ℤ extent h) hs w.1 (rw q at r.1)),
    InLine-Apart broadest (if is_placed h then p +ℤ extent h else p) hs w.1 r.1,
  )
