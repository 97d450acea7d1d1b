-- ===== src/Desire/Positions.antt =====
-- `desire_positions` of src/desire.c: the enabled heads are placed one after another, in a row or a
-- column, and aligned across. The coordinates are int32_t, which no real arrangement of displays
-- leaves: they are integers here. Halves are exact in a double.
use way_displays.Prelude.{
  ℤ, pos, ◌+ℤ◌, ◌-ℤ◌, ltb_ℤ, div_ℤ, Bool, ◌&&◌, Option, some, List, [], ◌∷◌, if◌then◌else◌, is_some,
}
use way_displays.Enums.{Arrange, Align}
use way_displays.Head.{Head}

-- `!head->des.zmode || !head->des.enabled` skips a head.
abbrev pub is_placed : Head → Bool
is_placed head = is_some head.des.zmode && head.des.enabled

abbrev max_ℤ : ℤ → ℤ → ℤ
max_ℤ best z = if ltb_ℤ best z then z else best

-- The first loop, for one of the dimensions.
unfoldable pub largest : (Head → ℤ) → ℤ → List Head → ℤ
largest size best [] = best
largest size best (h ∷ hs) = largest size (if is_placed h then max_ℤ best (size h) else best) hs

-- `(n) / 2.0 + 0.5`, truncated.
abbrev pub half_up : ℤ → ℤ
half_up n = div_ℤ (n +ℤ pos 1) 2

-- Across a column of a given width.
unfoldable pub align_x : Option Align → ℤ → ℤ → ℤ
align_x (some Align.right) widest width = widest -ℤ width
align_x (some Align.middle) widest width = half_up (widest -ℤ width)
align_x _ widest width = pos 0

-- Across a row of a given height.
unfoldable pub align_y : Option Align → ℤ → ℤ → ℤ
align_y (some Align.bottom) tallest height = tallest -ℤ height
align_y (some Align.middle) tallest height = half_up (tallest -ℤ height)
align_y _ tallest height = pos 0

abbrev pub moved_to : Head → ℤ → ℤ → Head
moved_to head x y = record head { des = record head.des { x = x; y = y } }

-- The second loop, down a column from `y`.
unfoldable pub place_col : Option Align → ℤ → ℤ → List Head → List Head
unfolding align_x
place_col align widest y [] = []
place_col align widest y (h ∷ hs) =
    (if is_placed h then moved_to h (align_x align widest h.scaled_width) y else h)
    ∷ place_col align widest (if is_placed h then y +ℤ h.scaled_height else y) hs

-- The second loop, along a row from `x`.
unfoldable pub place_row : Option Align → ℤ → ℤ → List Head → List Head
unfolding align_y
place_row align tallest x [] = []
place_row align tallest x (h ∷ hs) =
    (if is_placed h then moved_to h x (align_y align tallest h.scaled_height) else h)
    ∷ place_row align tallest (if is_placed h then x +ℤ h.scaled_width else x) hs

unfoldable pub desire_positions : Option Arrange → Option Align → List Head → List Head
unfolding largest place_col place_row
desire_positions (some Arrange.col) align heads =
    place_col align (largest (λ h. h.scaled_width) (pos 0) heads) (pos 0) heads
desire_positions _ align heads =
    place_row align (largest (λ h. h.scaled_height) (pos 0) heads) (pos 0) heads
