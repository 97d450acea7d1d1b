-- ===== src/Mode/Best.antt =====
-- What the searches for a configured mode find (mode_best_satisfying and mode_max_refresh).
use mathlib.Core.Bool.{false≢true}
use way_displays.Prelude.{
  ℕ, ◌≡◌, sym, ◌∙◌, ◌≤ℤ◌, Bool, ◌⊎◌, inl, inr, true, false, none, some, List, In, first, first-In,
  first_passes, first_finds, map, arith, or_else, Option-cases,
}
use way_displays.Collections.{Collections, Ordered}
use way_displays.Collections.Sorted.{first-Ordered}
use way_displays.Mode.{
  Mode, greater, mode_equal_res, mode_greater_than_res_refresh, mode_equal_res_mhz, mode_satisfies,
  mode_best_satisfying, mode_max_refresh,
}
use way_displays.Mode.Order.{greater-IsLess, equal_res_mhz-satisfies}

-- The modes of a map.
abbrev pub values : List (ℕ × Mode) → List Mode
values = map (λ e. e.1)

abbrev pub exact : Mode → Mode → Bool
exact t m = mode_equal_res_mhz (some m) (some t)

abbrev pub meets : Mode → Mode → Bool
meets t m = mode_satisfies (some m) (some t)

abbrev pub same_res : Mode → Mode → Bool
same_res t m = mode_equal_res (some m) (some t)

refresh_le :
    (t m r : Mode)
    → same_res t m ≡ true
    → same_res t r ≡ true
    → greater m r ≡ false
    → m.refresh_mhz ≤ℤ r.refresh_mhz
unfolding mode_equal_res mode_greater_than_res_refresh
refresh_le t m r g h k = ground arith

module _ (lib : Collections) (modes : List (ℕ × Mode)) where
  open lib use {pp, pl}

  abbrev candidates : List Mode
  candidates = pl.sort greater (pp.vals_plist modes)

  In-candidates : (m : Mode) → In m (values modes) → In m candidates
  In-candidates m i = (pl.In-sort greater _ m).1 (rw (pp.vals_plist_lem modes) i)

  candidates-In : (m : Mode) → In m candidates → In m (values modes)
  candidates-In m i = rw (pp.vals_plist_lem modes) at ((pl.In-sort greater _ m).0 i)

  candidates-Ordered : Ordered greater candidates
  candidates-Ordered = pl.Ordered-sort greater _ greater-IsLess

  best_satisfying_lem :
      (t : Mode)
      → mode_best_satisfying lib (some t) modes
        ≡ or_else (first (exact t) candidates) (first (meets t) candidates)
  unfolding mode_best_satisfying
  best_satisfying_lem t = rw (pl.find_lem (exact t) candidates, pl.find_lem (meets t) candidates)

  -- The result is the first exact match, or there is none and it is the first that satisfies.
  best_satisfying_cases :
      (t r : Mode)
      → mode_best_satisfying lib (some t) modes ≡ some r
      → (first (exact t) candidates ≡ some r)
        ⊎ ((first (exact t) candidates ≡ none) × (first (meets t) candidates ≡ some r))
  best_satisfying_cases t r h = ground (arith, best_satisfying_lem t)

  -- A mode that is chosen for a configured target is one of the head's modes, and satisfies the
  -- target.
  pub best_satisfying_sound :
      (t r : Mode)
      → mode_best_satisfying lib (some t) modes ≡ some r
      → In r (values modes) × (meets t r ≡ true)
  best_satisfying_sound t r h = elim (best_satisfying_cases t r h) [
    | inl e ↦ (
      candidates-In r (first-In (exact t) candidates r e),
      equal_res_mhz-satisfies r t (first_passes (exact t) candidates r e),
    )
    | inr (_, e) ↦
        (candidates-In r (first-In (meets t) candidates r e), first_passes (meets t) candidates r e)
  ]

  -- If some mode of the head satisfies the target then one is chosen.
  pub best_satisfying_complete :
      (t m : Mode)
      → In m (values modes)
      → meets t m ≡ true
      → (r : Mode) × (mode_best_satisfying lib (some t) modes ≡ some r)
  best_satisfying_complete t m i h = elim (Option-cases (first (exact t) candidates)) [
    | inl e ↦
        let (r, f) = first_finds (meets t) candidates m (In-candidates m i) h in
        (r, rw (best_satisfying_lem t, e) f)
    | inr (r, e) ↦ (r, rw (best_satisfying_lem t, e))
  ]

  -- Where the mode chosen is no exact match, no mode of the head that satisfies the target is
  -- greater, by its resolution and then its refresh.
  pub best_satisfying_greatest :
      (t r m : Mode)
      → mode_best_satisfying lib (some t) modes ≡ some r
      → exact t r ≡ false
      → In m (values modes)
      → meets t m ≡ true
      → greater m r ≡ false
  best_satisfying_greatest t r m h n i g = elim (best_satisfying_cases t r h) [
    | inl e ↦ absurd (false≢true (sym n ∙ first_passes (exact t) candidates r e))
    | inr (e, f) ↦
        first-Ordered greater meets t candidates r m greater-IsLess candidates-Ordered f
          (In-candidates m i) g
  ]

  found :
      (t r : Mode)
      → mode_max_refresh lib (some t) modes ≡ some r
      → first (same_res t) candidates ≡ some r
  unfolding mode_max_refresh
  found t r h = sym (pl.find_lem (same_res t) candidates) ∙ h

  -- The search at the resolution of the target finds one of the modes, of that resolution.
  pub max_refresh_lem :
      (t r : Mode)
      → mode_max_refresh lib (some t) modes ≡ some r
      → In r (values modes) × (same_res t r ≡ true)
  max_refresh_lem t r h =
      let e = found t r h in
      (
        candidates-In r (first-In (same_res t) candidates r e),
        first_passes (same_res t) candidates r e,
      )
