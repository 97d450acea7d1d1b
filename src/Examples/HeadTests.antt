-- ===== src/Examples/HeadTests.antt =====
-- The theorems on heads, at the monitor and the panel of a laptop.
use way_displays.Prelude.{
  ℕ, ◌≡◌, refl, sym, ◌∙◌, ◌*◌, ◌/◌, inl, inr, pos, true, Option, none, some, List, [], ◌∷◌, is_some,
}
use way_displays.Mode.{Mode}
use way_displays.Mode.Best.{meets}
use way_displays.Head.{Head}
use way_displays.Head.FindMode.{head_find_mode, choice}
use way_displays.Head.FindModeLaws.{find_mode_total, choice_user}
use way_displays.Head.Modes.{head_release_mode, head_reapply}
use way_displays.Head.ModesLaws.{finished_mode_returns}
use way_displays.Head.Scale.{quantize}
use way_displays.Head.ScaleLaws.{Near, steps, quantize-Near}
use way_displays.Examples.Concrete.{desk, cfg, panel, monitor, fhd, fhd_60, fhd_144}

abbrev get_mode : List (ℕ × Mode) → ℕ → Option Mode
get_mode = desk.lib.pp.get

find_mode_total_example :
    (z : ℕ) × (c : Mode) × ((head_find_mode desk cfg panel).zmode ≡ some z)
    × (get_mode panel.modes z ≡ some c)
    × (choice desk cfg panel ≡ some c)
find_mode_total_example = find_mode_total desk cfg panel 21 fhd_60 [] refl λ e f i j _. elim i [
  | inl p ↦ elim j [ inl q ↦ sym p ∙ q | inr y ↦ elim y [ ] ]
  | inr x ↦ elim x [ ]
]

choice_user_example : meets fhd fhd_144 ≡ true
unfolding choice way_displays.Head.Matching.head_matches_name_desc
    way_displays.Mode.mode_best_satisfying way_displays.Mode.mode_greater_than_res_refresh
    way_displays.Mode.mode_equal_res_mhz way_displays.Mode.mode_satisfies
choice_user_example =
    choice_user desk cfg monitor fhd_144 "DP-1" fhd fhd_60 refl refl (inl refl) refl

abbrev failed : Head
failed = record monitor { modes = (11, fhd_60) ∷ []; modes_failed = (13, fhd_144) ∷ [] }

finished_mode_returns_example :
    is_some (get_mode (head_reapply desk (head_release_mode desk failed 13)).modes 13) ≡ true
finished_mode_returns_example = finished_mode_returns desk failed 13 refl

quantize-Near_example :
    (quantize none 8 (pos 300) ≡ pos (steps none 8 300 * (256 / 8)))
    × Near none (256 / 8) 300 (steps none 8 300 * (256 / 8))
quantize-Near_example = quantize-Near none 8 300 (inr (inr (inr refl)))
