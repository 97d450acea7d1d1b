-- ===== src/Cfg/Validate.antt =====
-- `cfg_validate_fix` of src/cfg/cfg.c: bad alignments, DPIs and modes are replaced or removed.
use way_displays.Prelude.{
  ℤ, pos, negsuc, ◌≤ℤ◌, ltb_ℤ, eqb_ℤ, ◌≡◌, ◌⊎◌, Bool, true, false, ◌&&◌, not, Option, none, some,
  String, List, [], ◌∷◌, All, if◌then◌else◌,
}
use way_displays.Enums.{Arrange, Align}
use way_displays.Mode.{Mode}
use way_displays.Cfg.{Cfg}

abbrev leb_ℤ : ℤ → ℤ → Bool
leb_ℤ a b = not (ltb_ℤ b a)

-- A dimension that is given and not positive; -1 stands for one that is not given.
abbrev non_positive : ℤ → Bool
non_positive z = not (eqb_ℤ z (negsuc 0)) && leb_ℤ z (pos 0)

unfoldable pub mode_is_invalid : Mode → Bool
mode_is_invalid mode =
    if non_positive mode.width
    then true
    else if non_positive mode.height
    then true
    else if non_positive mode.refresh_mhz
    then true
    else if not mode.max && not mode.max_preferred_refresh
    then (if eqb_ℤ mode.width (negsuc 0) then true else eqb_ℤ mode.height (negsuc 0))
    else false

-- The alignment that the first `switch` leaves.
unfoldable pub fix_align : Option Arrange → Option Align → Option Align
fix_align (some Arrange.col) (some Align.left) = some Align.left
fix_align (some Arrange.col) (some Align.middle) = some Align.middle
fix_align (some Arrange.col) (some Align.right) = some Align.right
fix_align (some Arrange.col) _ = some Align.left
fix_align _ (some Align.top) = some Align.top
fix_align _ (some Align.middle) = some Align.middle
fix_align _ (some Align.bottom) = some Align.bottom
fix_align _ _ = some Align.top

abbrev pub auto_scale_dpi_min : ℤ
auto_scale_dpi_min = pos 8

abbrev pub auto_scale_dpi_default : ℤ
auto_scale_dpi_default = pos 96

unfoldable pub fix_dpi : ℤ → ℤ
fix_dpi dpi = if leb_ℤ dpi auto_scale_dpi_min then auto_scale_dpi_default else dpi

-- The last loop: an entry is removed as the iterator passes it.
unfoldable pub remove_invalid : List (String × Mode) → List (String × Mode)
remove_invalid [] = []
remove_invalid (e ∷ es) =
    let rest = remove_invalid es in if mode_is_invalid e.1 then rest else e ∷ rest

unfoldable pub cfg_validate_fix : {Real : Type 0} → Cfg Real → Cfg Real
unfolding fix_align fix_dpi remove_invalid
cfg_validate_fix cfg = record cfg {
  align = fix_align cfg.arrange cfg.align;
  auto_scale_dpi = fix_dpi cfg.auto_scale_dpi;
  modes = remove_invalid cfg.modes;
}

-- The alignments that suit an arrangement; rows are the default.
pub data Suits : Option Arrange → Option Align → Type 0 where
  col_left : Suits (some Arrange.col) (some Align.left)
  col_middle : Suits (some Arrange.col) (some Align.middle)
  col_right : Suits (some Arrange.col) (some Align.right)
  row_top : Suits (some Arrange.row) (some Align.top)
  row_middle : Suits (some Arrange.row) (some Align.middle)
  row_bottom : Suits (some Arrange.row) (some Align.bottom)
  unset_top : Suits none (some Align.top)
  unset_middle : Suits none (some Align.middle)
  unset_bottom : Suits none (some Align.bottom)

-- A mode that may be asked for: what it gives is positive, and it gives a resolution unless a
-- maximum is asked for.
pub record IsUsable (m : Mode) : Type 0 where
  pub width_ok : (m.width ≡ negsuc 0) ⊎ (pos 1 ≤ℤ m.width)
  pub height_ok : (m.height ≡ negsuc 0) ⊎ (pos 1 ≤ℤ m.height)
  pub refresh_ok : (m.refresh_mhz ≡ negsuc 0) ⊎ (pos 1 ≤ℤ m.refresh_mhz)
  pub resolution_ok :
      m.max ≡ false → m.max_preferred_refresh ≡ false → (pos 1 ≤ℤ m.width) × (pos 1 ≤ℤ m.height)

pub record IsValid {Real : Type 0} (cfg : Cfg Real) : Type 0 where
  pub aligned : Suits cfg.arrange cfg.align
  pub dpi_above : pos 9 ≤ℤ cfg.auto_scale_dpi
  pub usable : All (λ e. IsUsable e.1) cfg.modes
