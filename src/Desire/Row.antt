-- ===== src/Desire/Row.antt =====
-- What `desire_positions` of src/desire.c makes of the heads of a row: they adjoin and do not overlap.
use mathlib.Core.Bool.{false≢true}
use way_displays.Prelude.{
  ◌≢◌, ℤ, pos, ◌+ℤ◌, ◌≤ℤ◌, refl, inl, inr, Option, none, some, List, [], ◌∷◌, All, Bool-cases,
}
use way_displays.Enums.{Arrange, Align}
use way_displays.Head.{Head}
use way_displays.Desire.Positions.{is_placed, largest, place_row, desire_positions}
use way_displays.Desire.Line.{InLine, Apart, InLine-Apart}
use way_displays.Desire.Aligned.{Fits, align_y-Within, largest-Fits}

-- A line to the right: the heads that are placed stand side by side from `x` on, each begins where the
-- one before ends, and stays between 0 and `tallest` across.
abbrev pub InRow : ℤ → ℤ → List Head → Type 0
InRow = InLine (λ h. h.des.x) (λ h. h.scaled_width) (λ h. h.des.y) (λ h. h.scaled_height)

-- Of two heads that are placed, the later begins where the earlier ends or further right.
abbrev pub ApartInRow : List Head → Type 0
ApartInRow = Apart (λ h. h.des.x) (λ h. h.scaled_width) (λ h. h.des.y) (λ h. h.scaled_height)

place_row-InRow :
    (a : Option Align) (tallest x : ℤ) (hs : List Head)
    → Fits (λ h. h.scaled_height) tallest hs
    → InRow tallest x (place_row a tallest x hs)
unfolding place_row
place_row-InRow a tallest x [] f = tt
place_row-InRow a tallest x (h ∷ hs) f = elim (Bool-cases (is_placed h)) [
  | inl e ↦
      let (low, high) = align_y-Within a tallest h.scaled_height (f.0 e) in
      rw e (rw e (λ _. (refl, low, high), place_row-InRow a tallest (x +ℤ h.scaled_width) hs f.1))
  | inr e ↦ rw e (rw e (λ c. absurd (false≢true c), place_row-InRow a tallest x hs f.1))
]

widths :
    (a : Option Align) (tallest x : ℤ) (hs : List Head)
    → All (λ h. pos 0 ≤ℤ h.scaled_width) hs
    → All (λ h. pos 0 ≤ℤ h.scaled_width) (place_row a tallest x hs)
unfolding place_row
widths a tallest x [] w = tt
widths a tallest x (h ∷ hs) w = elim (Bool-cases (is_placed h)) [
  | inl e ↦ rw e (w.0, widths a tallest (x +ℤ h.scaled_width) hs w.1)
  | inr e ↦ rw e (w.0, widths a tallest x hs w.1)
]

in_row :
    (a : Option Align) (hs : List Head)
    → All (λ h. pos 0 ≤ℤ h.scaled_width) hs
    → let tallest = largest (λ h. h.scaled_height) (pos 0) hs in
      InRow tallest (pos 0) (place_row a tallest (pos 0) hs)
      × ApartInRow (place_row a tallest (pos 0) hs)
in_row a hs w =
    let tallest = largest (λ h. h.scaled_height) (pos 0) hs in
    let r = place_row-InRow a tallest (pos 0) hs (largest-Fits (λ h. h.scaled_height) (pos 0) hs) in
    (
      r,
      InLine-Apart (λ h. h.des.x) (λ h. h.scaled_width) (λ h. h.des.y) (λ h. h.scaled_height)
          tallest (pos 0) (place_row a tallest (pos 0) hs) (widths a tallest (pos 0) hs w) r,
    )

-- Heads that are arranged in a row, which is the default, adjoin from 0 on, stay between 0 and the
-- height of the tallest across, and do not overlap.
pub positions-InRow :
    (r : Option Arrange) (a : Option Align) (hs : List Head)
    → r ≢ some Arrange.col
    → All (λ h. pos 0 ≤ℤ h.scaled_width) hs
    → InRow (largest (λ h. h.scaled_height) (pos 0) hs) (pos 0) (desire_positions r a hs)
      × ApartInRow (desire_positions r a hs)
unfolding desire_positions
positions-InRow none a hs n w = in_row a hs w
positions-InRow (some Arrange.row) a hs n w = in_row a hs w
positions-InRow (some Arrange.col) a hs n w = absurd (n refl)
