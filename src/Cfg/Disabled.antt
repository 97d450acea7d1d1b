-- ===== src/Cfg/Disabled.antt =====
-- `cfg_disabled_applies_to_head` of src/cfg/disabled.c.
use way_displays.Prelude.{
  ℕ, ◌==◌, Bool, true, false, Option, none, some, String, List, [], ◌∷◌, if◌then◌else◌,
}
use way_displays.Platform.{Platform}
use way_displays.Cfg.{CfgCondition, CfgDisabled}
use way_displays.Cfg.Condition.{cfg_condition_met, cfg_condition_str}
use way_displays.Head.{Head}
use way_displays.Head.Matching.{head_matches_name_desc}
use way_displays.Lid.{Lid}

-- Whether a head is disabled, and the condition that says so, if there is one.
pub record Verdict : Type 0 where
  pub applies : Bool
  pub condition : Option CfgCondition

module _ (pf : Platform) (heads : List (ℕ × Head)) (lid : Option Lid) (fail : Bool) where
  open pf use {lib}
  open lib use {sp, ps}

  -- The loop over the entries whose NAME_DESC matches the head: the first with no conditions, or
  -- with one that is met, decides.
  unfoldable pub first_disabled : List (String × CfgDisabled) → Verdict
  first_disabled [] = record { applies = false; condition = none }
  first_disabled (e ∷ es) =
      if ps.size e.1.conditions == 0
      then record { applies = true; condition = none }
      else elim (ps.find (cfg_condition_met pf heads lid fail) e.1.conditions) [
        | some c ↦ record { applies = true; condition = some c }
        | none ↦ first_disabled es
      ]

  abbrev describe : Option CfgCondition → Option String
  describe none = none
  describe (some c) = cfg_condition_str c

  unfoldable pub disabled_verdict : List (String × CfgDisabled) → Head → Verdict
  unfolding first_disabled
  disabled_verdict disableds head =
      first_disabled (sp.filter_it (λ e. head_matches_name_desc pf head e.0) disableds)

  -- The answer, and the head with its description of the condition.
  unfoldable pub cfg_disabled_applies_to_head : List (String × CfgDisabled) → Head → Bool × Head
  unfolding disabled_verdict
  cfg_disabled_applies_to_head disableds head =
      let v = disabled_verdict disableds head in
      (v.applies, record head { disabled_condition_desc = describe v.condition })
