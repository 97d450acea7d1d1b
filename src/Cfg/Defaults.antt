-- ===== src/Cfg/Defaults.antt =====
-- `cfg_apply_defaults` of src/cfg/cfg.c and `cfg_disabled_add_lid_condition` of src/cfg/disabled.c.
use way_displays.Prelude.{
  Bool, ◌≡◌, refl, arith, Bool-cases, inl, inr, ℕ, ◌==◌, ℤ, pos, negsuc, eqb_ℤ, ◌&&◌, not, Option,
  none, some, String, List, [], ◌∷◌, if◌then◌else◌, or_else, is_some,
}
use way_displays.Enums.{Arrange, Align, OnOff, ScaleRoundStrategy, ConditionLid}
use way_displays.Platform.{Platform}
use way_displays.Cfg.{Cfg, CfgDisabled}

abbrev pub callback_cmd_default : String
callback_cmd_default = "notify-send \"way-displays ${CALLBACK_LEVEL}\" \"${CALLBACK_MSG}\""

abbrev pub laptop_name_desc_default : String
laptop_name_desc_default = "!^eDP-[0-9]"

abbrev pub scale_round_to_default : ℕ
scale_round_to_default = 8

abbrev pub auto_scale_dpi_default : ℤ
auto_scale_dpi_default = pos 96

-- One condition, that the lid is closed.
abbrev pub lid_closed_condition : CfgDisabled
lid_closed_condition = record {
  conditions = record { plugged = []; unplugged = []; lid = some ConditionLid.lid_closed } ∷ [];
}

module _ (pf : Platform) where
  open pf use {lib, Real, of_int, eqb}
  open lib use {sp}

  unfoldable pub cfg_disabled_add_lid_condition :
      List (String × CfgDisabled) → Option String → List (String × CfgDisabled)
  cfg_disabled_add_lid_condition disableds none = disableds
  cfg_disabled_add_lid_condition disableds (some name_desc) =
      if is_some (sp.get disableds name_desc)
      then disableds
      else sp.put disableds name_desc lid_closed_condition

  -- The disableds after the defaults: the lid condition is added to an empty map, once.
  unfoldable pub default_disableds :
      List (String × CfgDisabled) → Bool → List (String × CfgDisabled)
  unfolding cfg_disabled_add_lid_condition
  default_disableds m e =
      if not e && sp.size m == 0
      then cfg_disabled_add_lid_condition m (some laptop_name_desc_default)
      else m

  abbrev real_or : Real → Real → Real
  real_or x default = if eqb x (of_int (pos 0)) then default else x

  unfoldable pub cfg_apply_defaults : Cfg Real → Cfg Real
  unfolding default_disableds
  cfg_apply_defaults cfg = record cfg {
    arrange = or_else cfg.arrange (some Arrange.row);
    align = or_else cfg.align (some Align.top);
    scaling = or_else cfg.scaling (some OnOff.on);
    auto_scale = or_else cfg.auto_scale (some OnOff.on);
    scale_round_to = if cfg.scale_round_to == 0 then scale_round_to_default else cfg.scale_round_to;
    scale_round_strategy = or_else cfg.scale_round_strategy (some ScaleRoundStrategy.nearest);
    auto_scale_dpi =
        if eqb_ℤ cfg.auto_scale_dpi (pos 0) then auto_scale_dpi_default else cfg.auto_scale_dpi;
    auto_scale_min = real_or cfg.auto_scale_min (of_int (pos 1));
    auto_scale_max = real_or cfg.auto_scale_max (of_int (negsuc 0));
    callback_cmd = or_else cfg.callback_cmd (some callback_cmd_default);
    laptop_lid_monitor = or_else cfg.laptop_lid_monitor (some OnOff.on);
    disableds = default_disableds cfg.disableds cfg.disableds_empty;
  }

  default_disableds_nil : (m : List (String × CfgDisabled)) → sp.size m ≡ 0 → m ≡ []
  default_disableds_nil [] h = refl
  default_disableds_nil (e ∷ es) h = absurd (omega (arith, sp.size_lem (e ∷ es)))

  added :
      cfg_disabled_add_lid_condition [] (some laptop_name_desc_default)
      ≡ (laptop_name_desc_default, lid_closed_condition) ∷ []
  unfolding cfg_disabled_add_lid_condition
  added =
      let e = sp.get_lem {V = CfgDisabled} [] laptop_name_desc_default in
      rw e (sp.put-append [] laptop_name_desc_default lid_closed_condition e)

  -- Where no display is disabled, the panel of the laptop is, unless the configuration says that none is.
  pub disableds-apply_defaults :
      (cfg : Cfg Real)
      → sp.size cfg.disableds ≡ 0
      → (cfg_apply_defaults cfg).disableds ≡ (
          if cfg.disableds_empty then [] else (laptop_name_desc_default, lid_closed_condition) ∷ [])
  unfolding cfg_apply_defaults default_disableds
  disableds-apply_defaults cfg e =
      let nil = default_disableds_nil cfg.disableds e in
      elim (Bool-cases cfg.disableds_empty) [
        | inl none_wanted ↦ rw none_wanted nil
        | inr wanted ↦ rw wanted (rw e (rw nil added))
      ]
