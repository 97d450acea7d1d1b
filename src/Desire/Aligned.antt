-- ===== src/Desire/Aligned.antt =====
-- The alignment across and the largest size, of `desire_positions` in src/desire.c.
use way_displays.Prelude.{
  ℤ, pos, negsuc, ◌+ℤ◌, ◌-ℤ◌, ◌≤ℤ◌, int_laws, ltb_ℤ, ◌≡◌, true, Option, some, List, [], ◌∷◌, All,
  if◌then◌else◌, arith,
}
use way_displays.Enums.{Align}
use way_displays.Head.{Head}
use way_displays.Desire.Positions.{is_placed, largest, half_up, align_x, align_y}

-- The best size so far, after one more head.
abbrev next : (Head → ℤ) → ℤ → Head → ℤ
next size best h = if is_placed h then (if ltb_ℤ best (size h) then size h else best) else best

-- Every head that is placed fits.
abbrev pub Fits : (Head → ℤ) → ℤ → List Head → Type 0
Fits size most = All (λ h. is_placed h ≡ true → size h ≤ℤ most)

abbrev pub Within : ℤ → ℤ → ℤ → Type 0
Within most size at = (pos 0 ≤ℤ at) × (at +ℤ size ≤ℤ most)

half_up-le : (n : ℤ) → pos 0 ≤ℤ n → (pos 0 ≤ℤ half_up n) × (half_up n ≤ℤ n)
unfolding ◌+ℤ◌
half_up-le (pos n) h = ground arith
half_up-le (negsuc n) h = absurd (omega arith)

at_start : (most size : ℤ) → size ≤ℤ most → Within most size (pos 0)
at_start most size h = omega int_laws

at_end : (most size : ℤ) → size ≤ℤ most → Within most size (most -ℤ size)
at_end most size h = omega int_laws

in_middle : (most size : ℤ) → size ≤ℤ most → Within most size (half_up (most -ℤ size))
in_middle most size h =
    let (low, high) = half_up-le (most -ℤ size) (omega int_laws) in
    (low, raise (half_up (most -ℤ size)) high)
  where
    raise : (m : ℤ) → m ≤ℤ most -ℤ size → m +ℤ size ≤ℤ most
    raise m k = omega int_laws

pub align_y-Within :
    (a : Option Align) (most size : ℤ) → size ≤ℤ most → Within most size (align_y a most size)
unfolding align_y
align_y-Within (some Align.bottom) most size h = at_end most size h
align_y-Within (some Align.middle) most size h = in_middle most size h
align_y-Within _ most size h = at_start most size h

pub align_x-Within :
    (a : Option Align) (most size : ℤ) → size ≤ℤ most → Within most size (align_x a most size)
unfolding align_x
align_x-Within (some Align.right) most size h = at_end most size h
align_x-Within (some Align.middle) most size h = in_middle most size h
align_x-Within _ most size h = at_start most size h

largest-le : (size : Head → ℤ) (best : ℤ) (hs : List Head) → best ≤ℤ largest size best hs
unfolding largest
largest-le size best [] = omega arith
largest-le size best (h ∷ hs) = ground (arith, largest-le size (next size best h) hs)

-- The largest size is one that all placed heads fit.
pub largest-Fits :
    (size : Head → ℤ) (best : ℤ) (hs : List Head) → Fits size (largest size best hs) hs
unfolding largest
largest-Fits size best [] = tt
largest-Fits size best (h ∷ hs) = (
  λ placed. ground (arith, largest-le size (next size best h) hs),
  largest-Fits size (next size best h) hs,
)
