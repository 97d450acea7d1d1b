-- ===== src/Desire/Column.antt =====
-- What `desire_positions` of src/desire.c makes of the heads of a column: they adjoin and do not overlap.
use mathlib.Core.Bool.{false≢true}
use way_displays.Prelude.{
  ℤ, pos, ◌+ℤ◌, ◌≤ℤ◌, refl, inl, inr, Option, some, List, [], ◌∷◌, All, Bool-cases,
}
use way_displays.Enums.{Arrange, Align}
use way_displays.Head.{Head}
use way_displays.Desire.Positions.{is_placed, largest, place_col, desire_positions}
use way_displays.Desire.Line.{InLine, Apart, InLine-Apart}
use way_displays.Desire.Aligned.{Fits, align_x-Within, largest-Fits}

-- A line downwards: the heads that are placed stand one under another from `y` on, each begins where the
-- one before ends, and stays between 0 and `widest` across.
abbrev pub InColumn : ℤ → ℤ → List Head → Type 0
InColumn = InLine (λ h. h.des.y) (λ h. h.scaled_height) (λ h. h.des.x) (λ h. h.scaled_width)

-- Of two heads that are placed, the later begins where the earlier ends or further down.
abbrev pub ApartInColumn : List Head → Type 0
ApartInColumn = Apart (λ h. h.des.y) (λ h. h.scaled_height) (λ h. h.des.x) (λ h. h.scaled_width)

place_col-InColumn :
    (a : Option Align) (widest y : ℤ) (hs : List Head)
    → Fits (λ h. h.scaled_width) widest hs
    → InColumn widest y (place_col a widest y hs)
unfolding place_col
place_col-InColumn a widest y [] f = tt
place_col-InColumn a widest y (h ∷ hs) f = elim (Bool-cases (is_placed h)) [
  | inl e ↦
      let (low, high) = align_x-Within a widest h.scaled_width (f.0 e) in
      rw e
        (rw e (λ _. (refl, low, high), place_col-InColumn a widest (y +ℤ h.scaled_height) hs f.1))
  | inr e ↦ rw e (rw e (λ c. absurd (false≢true c), place_col-InColumn a widest y hs f.1))
]

heights :
    (a : Option Align) (widest y : ℤ) (hs : List Head)
    → All (λ h. pos 0 ≤ℤ h.scaled_height) hs
    → All (λ h. pos 0 ≤ℤ h.scaled_height) (place_col a widest y hs)
unfolding place_col
heights a widest y [] w = tt
heights a widest y (h ∷ hs) w = elim (Bool-cases (is_placed h)) [
  | inl e ↦ rw e (w.0, heights a widest (y +ℤ h.scaled_height) hs w.1)
  | inr e ↦ rw e (w.0, heights a widest y hs w.1)
]

in_column :
    (a : Option Align) (hs : List Head)
    → All (λ h. pos 0 ≤ℤ h.scaled_height) hs
    → let widest = largest (λ h. h.scaled_width) (pos 0) hs in
      InColumn widest (pos 0) (place_col a widest (pos 0) hs)
      × ApartInColumn (place_col a widest (pos 0) hs)
in_column a hs w =
    let widest = largest (λ h. h.scaled_width) (pos 0) hs in
    let r =
      place_col-InColumn a widest (pos 0) hs (largest-Fits (λ h. h.scaled_width) (pos 0) hs) in
    (
      r,
      InLine-Apart (λ h. h.des.y) (λ h. h.scaled_height) (λ h. h.des.x) (λ h. h.scaled_width) widest
          (pos 0) (place_col a widest (pos 0) hs) (heights a widest (pos 0) hs w) r,
    )

-- Heads that are arranged in a column adjoin from 0 on, stay between 0 and the width of the widest
-- across, and do not overlap.
pub positions-InColumn :
    (a : Option Align) (hs : List Head)
    → All (λ h. pos 0 ≤ℤ h.scaled_height) hs
    → let heads = desire_positions (some Arrange.col) a hs in
      InColumn (largest (λ h. h.scaled_width) (pos 0) hs) (pos 0) heads × ApartInColumn heads
unfolding desire_positions
positions-InColumn a hs n = in_column a hs n
