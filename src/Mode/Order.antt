-- ===== src/Mode/Order.antt =====
-- The comparison of modes by width, height and refresh (mode.c) can order a list.
use way_displays.Prelude.{◌≡◌, ◌⊎◌, ◌≤◌, ◌<◌, ◌+◌, ℤ, pos_part, neg_part, true, false, some, arith}
use way_displays.Collections.{IsLess}
use way_displays.Mode.{
  Mode, greater, mode_greater_than_res_refresh, mode_equal_res_mhz, mode_satisfies,
}

-- `a < b`, in the form that the tests compute to.
abbrev Below : ℤ → ℤ → Type 0
Below a b = pos_part a + neg_part b < pos_part b + neg_part a

abbrev Same : ℤ → ℤ → Type 0
Same a b = pos_part a + neg_part b ≡ pos_part b + neg_part a

-- The order that is read off a test that failed.
abbrev Lexicographic : Mode → Mode → Type 0
Lexicographic a b =
    Below a.width b.width
    ⊎ (Same a.width b.width
        × (Below a.height b.height
            ⊎ (Same a.height b.height
                × (pos_part a.refresh_mhz + neg_part b.refresh_mhz
                    ≤ pos_part b.refresh_mhz + neg_part a.refresh_mhz))))

not_greater : (a b : Mode) → greater a b ≡ false → Lexicographic a b
unfolding mode_greater_than_res_refresh
not_greater a b h = ground arith

not_greater_of : (a b : Mode) → Lexicographic a b → greater a b ≡ false
unfolding mode_greater_than_res_refresh
not_greater_of a b h = ground arith

Lexicographic-trans : (a b c : Mode) → Lexicographic a b → Lexicographic b c → Lexicographic a c
Lexicographic-trans a b c h k = ground arith

greater_asymm : (a b : Mode) → greater a b ≡ true → greater b a ≡ false
unfolding mode_greater_than_res_refresh
greater_asymm a b h = ground arith

greater_cotrans : (a b c : Mode) → greater a b ≡ false → greater b c ≡ false → greater a c ≡ false
greater_cotrans a b c h k =
    not_greater_of a c (Lexicographic-trans a b c (not_greater a b h) (not_greater b c k))

pub greater-IsLess : IsLess greater
greater-IsLess = record { asymm = greater_asymm; cotrans = greater_cotrans }

-- An exact match satisfies the target.
pub equal_res_mhz-satisfies :
    (m t : Mode)
    → mode_equal_res_mhz (some m) (some t) ≡ true
    → mode_satisfies (some m) (some t) ≡ true
unfolding mode_equal_res_mhz mode_satisfies
equal_res_mhz-satisfies m t h = ground arith
