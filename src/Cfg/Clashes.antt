-- ===== src/Cfg/Clashes.antt =====
-- `cfg_disabled_filter_conditional_clashes` of src/cfg/disabled.c: the entries of a request that disable
-- what the configuration disables under conditions are ignored. The warning is not modelled.
use text.Mathlib.TextEquality.{eq_iff}
use mathlib.Core.Bool.{false≢true}
use way_displays.Prelude.{
  ◌==◌, ltb, ◌≡◌, refl, sym, ◌∙◌, subst, inl, inr, Bool, false, not, ◌&&◌, ◌||◌, some, String, List,
  [], In, In-select, select-passes, select, Bool-cases,
}
use way_displays.Prelude.Text.{strcasestr, strlen}
use way_displays.Platform.{Platform}
use way_displays.Collections.Collected.{put_each, size-put_each}
use way_displays.Cfg.{CfgDisabled}
use way_displays.Head.Matching.{is_regex, tail_of}
use way_displays.Regx.{regex_matches}

module _ (pf : Platform) where
  open pf use {lib}
  open lib use {sp, ps}

  abbrev by_regex : String → String → Bool
  by_regex s pattern =
      ltb 2 (strlen pattern)
      && is_regex pattern
      && regex_matches pf (some s) (some (tail_of pattern))

  unfoldable pub cfg_disabled_cond_with_name_desc : String → String × CfgDisabled → Bool
  cfg_disabled_cond_with_name_desc b (a, a_disabled) =
      not (ps.size a_disabled.conditions == 0)
      && (strcasestr a b || strcasestr b a || by_regex b a || by_regex a b)

  -- The entries of the configuration that clash with a NAME_DESC.
  unfoldable pub clashing : List (String × CfgDisabled) → String → List (String × CfgDisabled)
  unfolding put_each cfg_disabled_cond_with_name_desc
  clashing disableds_cfg name_desc =
      put_each sp (λ k. (eq_iff k k).1 refl) []
        (sp.filter_it (cfg_disabled_cond_with_name_desc name_desc) disableds_cfg)

  unfoldable pub cfg_disabled_filter_conditional_clashes :
      List (String × CfgDisabled) → List (String × CfgDisabled) → List (String × CfgDisabled)
  unfolding clashing
  cfg_disabled_filter_conditional_clashes disableds_cfg disableds =
      select (λ e. sp.size (clashing disableds_cfg e.0) == 0) disableds

  -- What is left of a request clashes with no entry of the configuration that has conditions.
  pub filter_conditional_clashes_lem :
      (disableds_cfg disableds : List (String × CfgDisabled)) (e c : String × CfgDisabled)
      → In e (cfg_disabled_filter_conditional_clashes disableds_cfg disableds)
      → In c disableds_cfg
      → cfg_disabled_cond_with_name_desc e.0 c ≡ false
  unfolding cfg_disabled_filter_conditional_clashes clashing
  filter_conditional_clashes_lem disableds_cfg disableds e c i j =
      let same = λ (k : String). (eq_iff k k).1 refl in
      elim (Bool-cases (cfg_disabled_cond_with_name_desc e.0 c)) [
        | inr miss ↦ miss
        | inl hit ↦ absurd (
            false≢true (
              sym (
                size-put_each sp same
                  (sp.filter_it (cfg_disabled_cond_with_name_desc e.0) disableds_cfg) c
                  (subst (In c)
                    (sym (sp.filter_it_lem (cfg_disabled_cond_with_name_desc e.0) disableds_cfg))
                    (In-select (cfg_disabled_cond_with_name_desc e.0) c disableds_cfg j hit)))
              ∙ select-passes (λ x. sp.size (clashing disableds_cfg x.0) == 0) e disableds i))
      ]
