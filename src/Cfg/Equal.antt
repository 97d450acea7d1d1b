-- ===== src/Cfg/Equal.antt =====
-- `cfg_equal` of src/cfg/cfg.c, with the comparisons of conditions and disableds.
use way_displays.Prelude.{ℕ, ◌==◌, eqb_ℤ, Bool, ◌&&◌, Option, none, some}
use way_displays.Enums.{
  arrange_code, align_code, on_off_code, condition_lid_code, scale_round_strategy_code,
  log_threshold_code,
}
use way_displays.Platform.{Platform}
use way_displays.Mode.{Mode, mode_equal}
use way_displays.Cfg.{Cfg, CfgDisabled, CfgCondition}

-- Equality of scalars that may be unset, by their numbers.
abbrev pub code_of : {E : Type 0} → (E → ℕ) → Option E → ℕ
code_of c none = 0
code_of c (some e) = c e

abbrev pub same_code : {E : Type 0} → (E → ℕ) → Option E → Option E → Bool
same_code c a b = code_of c a == code_of c b

abbrev pub mode_equal_val : Mode → Mode → Bool
mode_equal_val a b = mode_equal (some a) (some b)

module _ (pf : Platform) where
  open pf use {lib, Real, eqb, equal_strcmp}
  open lib use {sp, ss, ps}

  unfoldable pub condition_equal : CfgCondition → CfgCondition → Bool
  condition_equal a b =
      same_code condition_lid_code a.lid b.lid
      && (ss.equal a.plugged b.plugged && ss.equal a.unplugged b.unplugged)

  unfoldable pub disabled_equal : CfgDisabled → CfgDisabled → Bool
  unfolding condition_equal
  disabled_equal a b = ps.equal condition_equal a.conditions b.conditions

  unfoldable pub cfg_equal : Cfg Real → Cfg Real → Bool
  unfolding disabled_equal
  cfg_equal a b =
      same_code align_code a.align b.align
      && (same_code arrange_code a.arrange b.arrange
          && (same_code on_off_code a.auto_scale b.auto_scale
              && (eqb_ℤ a.auto_scale_dpi b.auto_scale_dpi
                  && (eqb a.auto_scale_max b.auto_scale_max
                      && (eqb a.auto_scale_min b.auto_scale_min
                          && (same_code on_off_code a.laptop_lid_monitor b.laptop_lid_monitor
                              && (same_code log_threshold_code a.log_threshold b.log_threshold
                                  && (same_code scale_round_strategy_code a.scale_round_strategy
                                        b.scale_round_strategy
                                      && (a.scale_round_to == b.scale_round_to
                                          && (same_code on_off_code a.scaling b.scaling
                                              && (equal_strcmp a.callback_cmd b.callback_cmd
                                                  && (sp.equal disabled_equal a.disableds
                                                        b.disableds
                                                      && (sp.equal mode_equal_val a.modes b.modes
                                                          && (sp.equal (λ x y. x == y) a.scales
                                                            b.scales
                                                            && (sp.equal (λ x y. x == y)
                                                            a.transforms b.transforms
                                                            && (ss.equal a.adaptive_sync_off
                                                            b.adaptive_sync_off
                                                            && ss.equal a.order_name_desc
                                                            b.order_name_desc))))))))))))))))
