-- ===== src/Act/Refusals.antt =====
-- How `act_handle_failure` of src/act.c and `head_find_mode` of src/head.c go on where the compositor
-- refuses one mode after another.
use way_displays.Prelude.{
  ℕ, zero, suc, ◌≤◌, ◌<◌, ◌==◌, ◌≡◌, refl, sym, subst, ◌∙◌, inl, inr, true, not, Option, none, some,
  List, [], ◌∷◌, length, length-select, select, select-In, first, arith, Bool-cases,
}
use way_displays.Collections.{value_of}
use way_displays.Platform.{Platform}
use way_displays.Mode.{Mode}
use way_displays.Cfg.{Cfg}
use way_displays.Head.{Head}
use way_displays.Head.FindMode.{head_find_mode}
use way_displays.Head.FindModeLaws.{IsUnique, find_mode_total}
use way_displays.Act.Handlers.{mode_failed_head}

removed_shorter :
    (modes : List (ℕ × Mode)) (z : ℕ) (c : Mode)
    → value_of (first (λ e. e.0 == z) modes) ≡ some c
    → length (select (λ e. not (e.0 == z)) modes) < length modes
removed_shorter [] z c h = cc
removed_shorter (e ∷ modes) z c h = elim (Bool-cases (e.0 == z)) [
  | inl t ↦ ground (arith, t, length-select (λ (x : ℕ × Mode). not (x.0 == z)) modes)
  | inr t ↦ ground (arith, t, removed_shorter modes z c)
]

none_left : (modes : List (ℕ × Mode)) → length modes ≤ 0 → modes ≡ []
none_left [] h = refl
none_left (e ∷ modes) h = ground arith

module _ (pf : Platform) where
  open pf use {lib, Real}
  open lib use {pp}

  -- The compositor refuses the mode.
  abbrev refused : Head → Option ℕ → Head
  refused h none = h
  refused h (some z) = mode_failed_head pf (some z) h

  -- The compositor refuses the mode that is found, so many times.
  unfoldable pub refusals : Cfg Real → ℕ → Head → Head
  refusals cfg zero h = h
  refusals cfg (suc n) h = refusals cfg n (refused h (head_find_mode pf cfg h).zmode)

  -- No more modes than the bound are left.
  abbrev Fits : ℕ → Head → Type 0
  Fits n h = IsUnique h.modes × (length h.modes ≤ n)

  failed-Fits :
      (n z : ℕ) (c : Mode) (h : Head)
      → pp.get h.modes z ≡ some c
      → Fits (suc n) h
      → Fits n (mode_failed_head pf (some z) h)
  unfolding mode_failed_head
  failed-Fits n z c h e (u, l) =
      let kept = select (λ (x : ℕ × Mode). not (x.0 == z)) h.modes in
      subst (λ (m : List (ℕ × Mode)). IsUnique m × (length m ≤ n)) (sym (pp.remove_lem h.modes z))
        (
          λ x y i j s. u x y (select-In _ x h.modes i) (select-In _ y h.modes j) s,
          omega (arith, removed_shorter h.modes z c (sym (pp.get_lem h.modes z) ∙ e), l),
        )

  empty_finds : (cfg : Cfg Real) (h : Head) → h.modes ≡ [] → (head_find_mode pf cfg h).zmode ≡ none
  unfolding head_find_mode
  empty_finds cfg h e =
      let no_modes : (pp.size h.modes == 0) ≡ true =
        rw e (ground (arith, pp.size_lem {V = Mode} [])) in
      rw no_modes refl

  refused-Fits :
      (cfg : Cfg Real) (n : ℕ) (h : Head) (modes : List (ℕ × Mode))
      → h.modes ≡ modes
      → Fits (suc n) h
      → Fits n (refused h (head_find_mode pf cfg h).zmode)
  refused-Fits cfg n h [] e (u, l) =
      rw (empty_finds cfg h e)
        (u, subst (λ (m : List (ℕ × Mode)). length m ≤ n) (sym e) (omega arith))
  refused-Fits cfg n h ((k, m) ∷ rest) e f =
      let (z, c, found, available, q) = find_mode_total pf cfg h k m rest e f.0 in
      rw found (failed-Fits n z c h available f)

  refusals-Fits : (cfg : Cfg Real) (n : ℕ) (h : Head) → Fits n h → (refusals cfg n h).modes ≡ []
  unfolding refusals
  refusals-Fits cfg zero h f = none_left h.modes f.1
  refusals-Fits cfg (suc n) h f =
      refusals-Fits cfg n (refused h (head_find_mode pf cfg h).zmode)
        (refused-Fits cfg n h h.modes refl f)

  -- Where no key and no mode of a head stands in two entries and the compositor refuses every mode
  -- that is found for the head, the search ends: after as many refusals as the head has modes none is
  -- left, and none is found.
  pub refusals_end :
      (cfg : Cfg Real) (h : Head)
      → IsUnique h.modes
      → ((refusals cfg (length h.modes) h).modes ≡ [])
        × ((head_find_mode pf cfg (refusals cfg (length h.modes) h)).zmode ≡ none)
  refusals_end cfg h u =
      let left = refusals-Fits cfg (length h.modes) h (u, omega arith) in
      (left, empty_finds cfg (refusals cfg (length h.modes) h) left)
