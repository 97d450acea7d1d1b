-- ===== src/Examples/ModeTests.antt =====
-- The theorems on modes and on the tables of names, at concrete modes and names.
use way_displays.Prelude.{ℕ, ◌≡◌, refl, inl, inr, ◌≤ℤ◌, true, false, none, some, In}
use way_displays.Prelude.Text.{strcasecmp}
use way_displays.Mode.{
  Mode, greater, mode_best_satisfying, mode_max_refresh, mode_max, mode_satisfies,
}
use way_displays.Mode.Best.{best_satisfying_greatest}
use way_displays.Mode.Max.{Bounded, max_bounds}
use way_displays.Enums.Names.{_val, _val_start, _name, aligns, manual_overrides}
use way_displays.Enums.RoundTrip.{enum_round_trip, manual_override_unbounded}
use way_displays.Examples.Concrete.{monitor_modes, fhd, fhd_60, fhd_144, uhd_60}
use way_displays.Examples.Containers.{containers}

best_satisfying_greatest_example : greater fhd_60 fhd_144 ≡ false
unfolding mode_best_satisfying way_displays.Mode.mode_greater_than_res_refresh
    way_displays.Mode.mode_equal_res_mhz mode_satisfies
best_satisfying_greatest_example =
    best_satisfying_greatest containers monitor_modes fhd fhd_144 fhd_60 refl refl (inl refl) refl

max_bounds_example : Bounded uhd_60 fhd_144
unfolding mode_max way_displays.Mode.area way_displays.Prelude.wrap_int32 way_displays.Prelude.◌*ℤ◌
max_bounds_example = max_bounds monitor_modes uhd_60 fhd_144 refl (inr (inr (inl refl)))

enum_round_trip_example :
    (_val aligns (some "BOTTOM") ≡ some 3) × (_val_start aligns (some "BOTTOM") ≡ some 3)
unfolding _name
enum_round_trip_example = enum_round_trip aligns 3 "BOTTOM" (inr (inr (inl refl))) refl

manual_override_unbounded_example : _val manual_overrides (some "maybe") ≡ none
unfolding strcasecmp
manual_override_unbounded_example = manual_override_unbounded "maybe" refl
