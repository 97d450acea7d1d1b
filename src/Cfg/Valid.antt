-- ===== src/Cfg/Valid.antt =====
-- A configuration that `cfg_validate_fix` of src/cfg/cfg.c has fixed is valid, and a valid one is left
-- as it is.
use way_displays.Prelude.{
  ◌≡◌, refl, inl, inr, false, Option, none, some, String, List, [], ◌∷◌, All, pos, ◌≤ℤ◌, arith,
  Bool-cases, ap, ℤ,
}
use way_displays.Enums.{Arrange, Align}
use way_displays.Mode.{Mode}
use way_displays.Cfg.{Cfg}
use way_displays.Cfg.Validate.{
  mode_is_invalid, fix_align, fix_dpi, remove_invalid, cfg_validate_fix, Suits, IsUsable, IsValid,
  col_left, col_middle, col_right, row_top, row_middle, row_bottom, unset_top, unset_middle,
  unset_bottom,
}

fix_align-Suits : (r : Option Arrange) (a : Option Align) → Suits r (fix_align r a)
unfolding fix_align
fix_align-Suits none none = unset_top
fix_align-Suits none (some Align.top) = unset_top
fix_align-Suits none (some Align.middle) = unset_middle
fix_align-Suits none (some Align.bottom) = unset_bottom
fix_align-Suits none (some Align.left) = unset_top
fix_align-Suits none (some Align.right) = unset_top
fix_align-Suits (some Arrange.row) none = row_top
fix_align-Suits (some Arrange.row) (some Align.top) = row_top
fix_align-Suits (some Arrange.row) (some Align.middle) = row_middle
fix_align-Suits (some Arrange.row) (some Align.bottom) = row_bottom
fix_align-Suits (some Arrange.row) (some Align.left) = row_top
fix_align-Suits (some Arrange.row) (some Align.right) = row_top
fix_align-Suits (some Arrange.col) none = col_left
fix_align-Suits (some Arrange.col) (some Align.top) = col_left
fix_align-Suits (some Arrange.col) (some Align.middle) = col_middle
fix_align-Suits (some Arrange.col) (some Align.bottom) = col_left
fix_align-Suits (some Arrange.col) (some Align.left) = col_left
fix_align-Suits (some Arrange.col) (some Align.right) = col_right

Suits-fix_align : {r : Option Arrange} {a : Option Align} → Suits r a → fix_align r a ≡ a
unfolding fix_align
Suits-fix_align col_left = refl
Suits-fix_align col_middle = refl
Suits-fix_align col_right = refl
Suits-fix_align row_top = refl
Suits-fix_align row_middle = refl
Suits-fix_align row_bottom = refl
Suits-fix_align unset_top = refl
Suits-fix_align unset_middle = refl
Suits-fix_align unset_bottom = refl

fix_dpi_above : (d : ℤ) → pos 9 ≤ℤ fix_dpi d
unfolding fix_dpi
fix_dpi_above d = ground arith

fix_dpi_self : (d : ℤ) → pos 9 ≤ℤ d → fix_dpi d ≡ d
unfolding fix_dpi
fix_dpi_self d h = ground arith

IsUsable-of : (m : Mode) → mode_is_invalid m ≡ false → IsUsable m
unfolding mode_is_invalid
IsUsable-of m h = ground arith

of-IsUsable : (m : Mode) → IsUsable m → mode_is_invalid m ≡ false
unfolding mode_is_invalid
of-IsUsable m h = ground arith

remove_invalid-IsUsable : (ms : List (String × Mode)) → All (λ e. IsUsable e.1) (remove_invalid ms)
unfolding remove_invalid
remove_invalid-IsUsable [] = tt
remove_invalid-IsUsable (e ∷ es) = elim (Bool-cases (mode_is_invalid e.1)) [
  | inl bad ↦ rw bad (remove_invalid-IsUsable es)
  | inr good ↦ rw good (IsUsable-of e.1 good, remove_invalid-IsUsable es)
]

usable-remove_invalid :
    (ms : List (String × Mode)) → All (λ e. IsUsable e.1) ms → remove_invalid ms ≡ ms
unfolding remove_invalid
usable-remove_invalid [] h = refl
usable-remove_invalid (e ∷ es) h =
    rw (of-IsUsable e.1 h.0) (ap (λ r. e ∷ r) (usable-remove_invalid es h.1))

-- What `cfg_validate_fix` returns is valid: the alignment suits the arrangement, the DPI is above
-- the minimum, and every mode can be asked for.
pub validate_fix-IsValid : {Real : Type 0} (cfg : Cfg Real) → IsValid (cfg_validate_fix cfg)
unfolding cfg_validate_fix
validate_fix-IsValid cfg = record {
  aligned = fix_align-Suits cfg.arrange cfg.align;
  dpi_above = fix_dpi_above cfg.auto_scale_dpi;
  usable = remove_invalid-IsUsable cfg.modes;
}

-- A valid configuration is left as it is, so fixing twice is fixing once.
pub IsValid-validate_fix :
    {Real : Type 0} (cfg : Cfg Real) → IsValid cfg → cfg_validate_fix cfg ≡ cfg
unfolding cfg_validate_fix
IsValid-validate_fix cfg v = cc (
  Suits-fix_align v.aligned,
  fix_dpi_self cfg.auto_scale_dpi v.dpi_above,
  usable-remove_invalid cfg.modes v.usable,
)
