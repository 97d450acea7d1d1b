-- ===== src/Head/Scale.antt =====
-- Scales: `head_get_fixed_scale`, `head_auto_scale` and `head_scale` of src/head.c, and `mode_dpi` of
-- src/mode.c. A scale is a `wl_fixed_t`, the number of 256ths. A quantized scale is computed by whole
-- numbers: for the bases 1, 2, 4 and 8, which alone `scale_round_to_val` of src/enum.c reads, every
-- double of the source is exact there.
use way_displays.Prelude.{
  ℕ, ◌==◌, ℤ, pos, ◌*ℤ◌, ltb_ℤ, eqb_ℤ, div_ℤ, floor_div, ceil_div, round_div, ◌&&◌, ◌||◌, not,
  Option, none, some, if◌then◌else◌,
}
use way_displays.Enums.{ScaleRoundStrategy}
use way_displays.Platform.{Platform}
use way_displays.Mode.{Mode}
use way_displays.Cfg.{Cfg}
use way_displays.Head.{Head}

abbrev pub scale_round_to_default : ℕ
scale_round_to_default = 8

-- `g_cfg->scale_round_to ? g_cfg->scale_round_to : SCALE_ROUND_TO_DEFAULT`.
abbrev pub round_base : ℕ → ℕ
round_base n = if n == 0 then scale_round_to_default else n

-- `round_fn(a / n)`.
abbrev pub round_by : Option ScaleRoundStrategy → ℤ → ℕ → ℤ
round_by (some ScaleRoundStrategy.down) a n = floor_div a n
round_by (some ScaleRoundStrategy.up) a n = ceil_div a n
round_by _ a n = round_div a n

-- The fixed scale, rounded to a multiple of 256 / b by the strategy.
unfoldable pub quantize : Option ScaleRoundStrategy → ℕ → ℤ → ℤ
quantize strategy b fixed = div_ℤ (round_by strategy (fixed *ℤ pos b) 256 *ℤ pos 256) b

module _ (pf : Platform) where
  open pf use {lib, Real, of_int, add, mul, div, lt, eqb, ceil, trunc, wl_fixed_from_double}
  open lib use {pp}

  unfoldable pub head_get_fixed_scale : Cfg Real → Real → ℤ
  unfolding quantize
  head_get_fixed_scale cfg scale =
      quantize cfg.scale_round_strategy (round_base cfg.scale_round_to) (wl_fixed_from_double scale)

  abbrev zero_real : Real
  zero_real = of_int (pos 0)

  -- 25.4 mm to the inch.
  abbrev mm_per_inch : Real
  mm_per_inch = div (of_int (pos 254)) (of_int (pos 10))

  unfoldable pub mode_dpi : Option Mode → ℤ → ℤ → Real
  mode_dpi none width_mm height_mm = zero_real
  mode_dpi (some mode) width_mm height_mm =
      if eqb_ℤ width_mm (pos 0) || eqb_ℤ height_mm (pos 0)
      then zero_real
      else let horiz = mul (div (of_int mode.width) (of_int width_mm)) mm_per_inch in
        let vert = mul (div (of_int mode.height) (of_int height_mm)) mm_per_inch in
        div (add horiz vert) (of_int (pos 2))

  abbrev dpi_base : Cfg Real → ℤ
  dpi_base cfg = if eqb_ℤ cfg.auto_scale_dpi (pos 0) then pos 96 else cfg.auto_scale_dpi

  -- The DPI between the minimum and the maximum, where that is set.
  unfoldable pub clamp_dpi : ℤ → ℤ → Real → Real
  clamp_dpi dpi_min dpi_max dpi =
      if lt dpi (of_int dpi_min)
      then of_int dpi_min
      else if not (ltb_ℤ dpi_max dpi_min) && lt (of_int dpi_max) dpi
      then of_int dpi_max
      else dpi

  unfoldable pub head_auto_scale : Cfg Real → Head → Real → Real → ℤ
  unfolding head_get_fixed_scale mode_dpi clamp_dpi
  head_auto_scale cfg head min max = elim head.des.zmode [
    | none ↦ head_get_fixed_scale cfg (of_int (pos 1))
    | some z ↦
        let dpi = mode_dpi (pp.get head.modes z) head.width_mm head.height_mm in
        let b = round_base cfg.scale_round_to in
        let step = div_ℤ (dpi_base cfg) b in
        let low = step *ℤ trunc (ceil (mul min (of_int (pos b)))) in
        let dpi_max = step *ℤ trunc (mul max (of_int (pos b))) in
        let dpi_min = if ltb_ℤ low step then step else low in
        if eqb dpi zero_real
        then head_get_fixed_scale cfg (of_int (pos 1))
        else head_get_fixed_scale cfg (div (clamp_dpi dpi_min dpi_max dpi) (of_int (dpi_base cfg)))
  ]

  abbrev mode_at : Head → Option ℕ → Option Mode
  mode_at head none = none
  mode_at head (some z) = pp.get head.modes z

  -- The scale that brings a mode to the DPI of the configuration, without a head 1.
  unfoldable pub head_scale : Cfg Real → Option Head → Option ℕ → Real
  unfolding mode_dpi
  head_scale cfg none zmode = of_int (pos 1)
  head_scale cfg (some head) zmode =
      let dpi = mode_dpi (mode_at head zmode) head.width_mm head.height_mm in
      if eqb dpi zero_real then of_int (pos 1) else div dpi (of_int (dpi_base cfg))
