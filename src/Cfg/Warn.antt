-- ===== src/Cfg/Warn.antt =====
-- `cfg_validate_warn` of src/cfg/cfg.c: which names of displays are warned of, in the order of the log.
use text.Mathlib.Text.{◌==◌ as str_eq}
use way_displays.Prelude.{ltb, Bool, true, false, String, List, [], ◌∷◌, ◌++◌, map}
use way_displays.Prelude.Text.{strlen}
use way_displays.Enums.{CfgElement}
use way_displays.Cfg.{Cfg, CfgCondition, CfgDisabled}

-- A name that is short, or that two displays commonly share.
pub data Ambiguity : Type 0 where
  short matches_edp : Ambiguity

pub record Warning : Type 0 where
  pub element : CfgElement
  pub name_desc : String
  pub ambiguity : Ambiguity

abbrev of_short : CfgElement → String → Bool → List Warning
of_short element name_desc true =
    record { element = element; name_desc = name_desc; ambiguity = Ambiguity.short } ∷ []
of_short element name_desc false = []

abbrev of_edp : CfgElement → String → Bool → List Warning
of_edp element name_desc true =
    record { element = element; name_desc = name_desc; ambiguity = Ambiguity.matches_edp } ∷ []
of_edp element name_desc false = []

unfoldable pub warn_ambiguous_name_desc : CfgElement → String → List Warning
warn_ambiguous_name_desc element name_desc =
    of_short element name_desc (ltb (strlen name_desc) 4)
    ++ of_edp element name_desc (str_eq name_desc "DP-1")

unfoldable pub warn_ambiguous_name_desc_sset : CfgElement → List String → List Warning
unfolding warn_ambiguous_name_desc
warn_ambiguous_name_desc_sset element [] = []
warn_ambiguous_name_desc_sset element (n ∷ ns) =
    warn_ambiguous_name_desc element n ++ warn_ambiguous_name_desc_sset element ns

-- The keys of a map, which an iterator visits in order.
unfoldable pub warn_ambiguous_name_desc_map :
    {V : Type 0} → CfgElement → List (String × V) → List Warning
unfolding warn_ambiguous_name_desc_sset
warn_ambiguous_name_desc_map element m = warn_ambiguous_name_desc_sset element (map (λ e. e.0) m)

abbrev warn_conditions : List CfgCondition → List Warning
warn_conditions [] = []
warn_conditions (c ∷ cs) =
    warn_ambiguous_name_desc_sset CfgElement.plugged c.plugged
    ++ (warn_ambiguous_name_desc_sset CfgElement.unplugged c.unplugged ++ warn_conditions cs)

abbrev warn_disableds : List (String × CfgDisabled) → List Warning
warn_disableds [] = []
warn_disableds ((name_desc, d) ∷ rest) =
    warn_ambiguous_name_desc CfgElement.disabled name_desc
    ++ (warn_conditions d.conditions ++ warn_disableds rest)

unfoldable pub cfg_validate_warn : {Real : Type 0} → Cfg Real → List Warning
unfolding warn_ambiguous_name_desc warn_ambiguous_name_desc_sset warn_ambiguous_name_desc_map
cfg_validate_warn cfg =
    warn_ambiguous_name_desc_map CfgElement.scale cfg.scales
    ++ (warn_ambiguous_name_desc_map CfgElement.mode cfg.modes
        ++ (warn_ambiguous_name_desc_map CfgElement.transform cfg.transforms
            ++ (warn_ambiguous_name_desc_sset CfgElement.order cfg.order_name_desc
                ++ (warn_ambiguous_name_desc_sset CfgElement.vrr_off cfg.adaptive_sync_off
                    ++ warn_disableds cfg.disableds))))
