-- ===== src/Cfg/Condition.antt =====
-- src/cfg/condition.c: the conditions under which a display is disabled. `heads` and `lid` are the globals
-- `g_displ->heads` and `g_lid`. A condition is not NULL: it comes out of a set.
use way_displays.Prelude.{
  ℕ, Bool, true, false, ◌&&◌, not, Option, none, some, String, List, [], ◌∷◌, is_some,
}
use way_displays.Prelude.Text.{append}
use way_displays.Enums.{ConditionLid}
use way_displays.Platform.{Platform}
use way_displays.Cfg.{CfgCondition}
use way_displays.Head.{Head}
use way_displays.Head.Matching.{head_matches_name_desc}
use way_displays.Lid.{Lid}

-- The `switch` on the lid of the condition; `fail` fails every condition that the lid is closed.
unfoldable pub lid_met : Option ConditionLid → Bool → Option Lid → Bool
lid_met (some ConditionLid.lid_closed) true lid = false
lid_met (some ConditionLid.lid_closed) false none = false
lid_met (some ConditionLid.lid_closed) false (some lid) = lid.closed
lid_met (some ConditionLid.lid_open) fail none = false
lid_met (some ConditionLid.lid_open) fail (some lid) = not lid.closed
lid_met (some ConditionLid.lid_not_present) fail none = true
lid_met (some ConditionLid.lid_not_present) fail (some lid) = false
lid_met none fail lid = true

abbrev with_and : String → String
with_and String.[] = ""
with_and (String.◌∷◌ c s) = append (String.◌∷◌ c s) " AND "

-- One call of `sprintf_append`: the separator is there if the text has begun.
abbrev add_part : String → String → String
add_part str part = append (with_and str) part

abbrev add_parts : String → List String → String → String
add_parts str [] suffix = str
add_parts str (v ∷ vs) suffix = add_parts (add_part str (append v suffix)) vs suffix

abbrev lid_part : String → Option ConditionLid → String
lid_part str (some ConditionLid.lid_closed) = add_part str "lid closed"
lid_part str (some ConditionLid.lid_open) = add_part str "lid open"
lid_part str (some ConditionLid.lid_not_present) = add_part str "lid not present"
lid_part str none = str

-- NULL (`none`) for a condition of no parts.
abbrev null_if_empty : String → Option String
null_if_empty String.[] = none
null_if_empty (String.◌∷◌ c s) = some (String.◌∷◌ c s)

unfoldable pub cfg_condition_str : CfgCondition → Option String
cfg_condition_str c =
    null_if_empty
      (lid_part (add_parts (add_parts "" c.plugged " plugged") c.unplugged " unplugged") c.lid)

module _ (pf : Platform) where
  open pf use {lib}
  open lib use {pp}

  -- Whether a head that matches is there.
  unfoldable pub is_plugged : List (ℕ × Head) → String → Bool
  is_plugged heads v = is_some (pp.find (λ e. head_matches_name_desc pf e.1 v) heads)

  unfoldable pub all_plugged : List (ℕ × Head) → List String → Bool
  unfolding is_plugged
  all_plugged heads [] = true
  all_plugged heads (v ∷ vs) = is_plugged heads v && all_plugged heads vs

  unfoldable pub none_plugged : List (ℕ × Head) → List String → Bool
  unfolding is_plugged
  none_plugged heads [] = true
  none_plugged heads (v ∷ vs) = not (is_plugged heads v) && none_plugged heads vs

  unfoldable pub cfg_condition_met : List (ℕ × Head) → Option Lid → Bool → CfgCondition → Bool
  unfolding all_plugged none_plugged lid_met
  cfg_condition_met heads lid fail c =
      all_plugged heads c.plugged && (none_plugged heads c.unplugged && lid_met c.lid fail lid)
