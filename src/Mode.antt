-- ===== src/Mode.antt =====
-- src/mode.c and inc/mode.h: a display mode, the predicates that compare modes, and the searches
-- through the modes of a head. A pointer to a mode that may be NULL is an `Option`.
pub mod Order
pub mod Best
pub mod Max
use way_displays.Prelude.{
  ℕ, ◌==◌, ℤ, pos, negsuc, ◌+ℤ◌, ◌*ℤ◌, ltb_ℤ, eqb_ℤ, div_ℤ, wrap_int32, Bool, true, false, ◌&&◌,
  ◌||◌, not, Option, none, some, List, [], ◌∷◌, if◌then◌else◌, or_else,
}
use way_displays.Collections.{Collections}

-- `addr` is the address of the struct, compared where the source compares pointers.
pub record Mode : Type 0 where
  pub addr : ℕ
  pub width : ℤ
  pub height : ℤ
  pub refresh_mhz : ℤ
  pub max : Bool
  pub max_preferred_refresh : Bool
  pub warned_no_mode : Bool

-- The struct that `calloc` placed at `addr`.
unfoldable pub mode_init : ℕ → Mode
mode_init addr = record {
  addr = addr;
  width = negsuc 0;
  height = negsuc 0;
  refresh_mhz = negsuc 0;
  max = false;
  max_preferred_refresh = false;
  warned_no_mode = false;
}

abbrev pub mode_same : Mode → Mode → Bool
mode_same a b = a.addr == b.addr

abbrev pub eqb_Bool : Bool → Bool → Bool
eqb_Bool true b = b
eqb_Bool false b = not b

-- `memcmp` of the two structs: every field is equal.
unfoldable pub mode_equal : Option Mode → Option Mode → Bool
mode_equal (some a) (some b) =
    eqb_ℤ a.width b.width
    && (eqb_ℤ a.height b.height
        && (eqb_ℤ a.refresh_mhz b.refresh_mhz
            && (eqb_Bool a.max b.max
                && (eqb_Bool a.max_preferred_refresh b.max_preferred_refresh
                    && eqb_Bool a.warned_no_mode b.warned_no_mode))))
mode_equal _ _ = false

unfoldable pub mode_equal_res : Option Mode → Option Mode → Bool
mode_equal_res (some a) (some b) = eqb_ℤ a.width b.width && eqb_ℤ a.height b.height
mode_equal_res _ _ = false

-- mHz rounded to Hz, by C's division.
unfoldable pub mode_hz_rounded : Option Mode → ℤ
mode_hz_rounded (some m) = div_ℤ (m.refresh_mhz +ℤ pos 500) 1000
mode_hz_rounded none = pos 0

unfoldable pub mode_equal_res_hz : Option Mode → Option Mode → Bool
unfolding mode_equal_res mode_hz_rounded
mode_equal_res_hz a b = mode_equal_res a b && eqb_ℤ (mode_hz_rounded a) (mode_hz_rounded b)

abbrev refresh_equal : Option Mode → Option Mode → Bool
refresh_equal (some a) (some b) = eqb_ℤ a.refresh_mhz b.refresh_mhz
refresh_equal _ _ = false

unfoldable pub mode_equal_res_mhz : Option Mode → Option Mode → Bool
unfolding mode_equal_res
mode_equal_res_mhz a b = mode_equal_res a b && refresh_equal a b

unfoldable pub mode_greater_than_res_refresh : Option Mode → Option Mode → Bool
mode_greater_than_res_refresh (some a) (some b) =
    if ltb_ℤ b.width a.width
    then true
    else if not (eqb_ℤ a.width b.width)
    then false
    else if ltb_ℤ b.height a.height
    then true
    else if not (eqb_ℤ a.height b.height)
    then false
    else if ltb_ℤ b.refresh_mhz a.refresh_mhz
    then true
    else false
mode_greater_than_res_refresh _ _ = false

unfoldable pub mode_satisfies : Option Mode → Option Mode → Bool
unfolding mode_hz_rounded
mode_satisfies (some m) (some target) =
    target.max
    || (eqb_ℤ m.width target.width
        && (eqb_ℤ m.height target.height
            && (eqb_ℤ target.refresh_mhz (negsuc 0)
                || eqb_ℤ (mode_hz_rounded (some m)) (mode_hz_rounded (some target)))))
mode_satisfies _ _ = false

-- Largest first: the comparison that `plist_sort` is called with.
abbrev pub greater : Mode → Mode → Bool
greater a b = mode_greater_than_res_refresh (some a) (some b)

-- `width * height` in int32_t.
unfoldable pub area : Mode → ℤ
area m = wrap_int32 (m.width *ℤ m.height)

-- One round of the loop of `mode_max`.
unfoldable pub mode_max_step : Option Mode → Mode → Option Mode
mode_max_step none mode = some mode
mode_max_step (some best) mode =
    if ltb_ℤ (area best) (area mode)
    then some mode
    else if eqb_ℤ mode.width best.width
        && (eqb_ℤ mode.height best.height && ltb_ℤ best.refresh_mhz mode.refresh_mhz)
    then some mode
    else some best

unfoldable pub mode_max_from : Option Mode → List (ℕ × Mode) → Option Mode
unfolding mode_max_step
mode_max_from best [] = best
mode_max_from best ((k, mode) ∷ rest) = mode_max_from (mode_max_step best mode) rest

unfoldable pub mode_max : List (ℕ × Mode) → Option Mode
unfolding mode_max_from
mode_max modes = mode_max_from none modes

module _ (lib : Collections) where
  open lib use {pp, pl}

  unfoldable pub mode_max_refresh : Option Mode → List (ℕ × Mode) → Option Mode
  mode_max_refresh none modes = none
  mode_max_refresh (some target) modes =
      let candidates = pl.sort greater (pp.vals_plist modes) in
      pl.find (λ m. mode_equal_res (some m) (some target)) candidates

  unfoldable pub mode_best_satisfying : Option Mode → List (ℕ × Mode) → Option Mode
  mode_best_satisfying none modes = none
  mode_best_satisfying (some target) modes =
      let candidates = pl.sort greater (pp.vals_plist modes) in
      let exact = pl.find (λ m. mode_equal_res_mhz (some m) (some target)) candidates in
      or_else exact (pl.find (λ m. mode_satisfies (some m) (some target)) candidates)
