-- ===== src/Head/Matching.antt =====
-- How src/head.c matches a head with a NAME_DESC of the configuration: exactly, by a regular expression
-- after `!`, or by part of the name or description. Heads and texts are not NULL here: every call
-- passes a head and a key of a map.
use text.Mathlib.Text.{◌==◌ as str_eq}
use way_displays.Prelude.{
  ltb, Bool, false, ◌&&◌, ◌||◌, not, Option, none, some, String, ◌≡◌, ◌==◌, if◌then◌else◌,
}
use Prim.Native.Char.{code}
use way_displays.Prelude.Text.{strcasestr, strlen}
use way_displays.Platform.{Platform}
use way_displays.Regx.{regex_matches, regex_compiles}
use way_displays.Head.{Head}

abbrev passes : (String → Bool) → Option String → Bool
passes p none = false
passes p (some s) = p s

-- Whether the name or the description, where there is one, passes the test.
abbrev either : (String → Bool) → Head → Bool
either p h = passes p h.name || passes p h.description

-- `name_desc[0] == '!'`.
abbrev pub is_regex : String → Bool
is_regex String.[] = false
is_regex (String.◌∷◌ c s) = code c == b'!'

-- `name_desc + 1`.
abbrev pub tail_of : String → String
tail_of String.[] = ""
tail_of (String.◌∷◌ c s) = s

unfoldable pub head_matches_name_desc_exact : Head → String → Bool
head_matches_name_desc_exact h name_desc = either (λ s. str_eq s name_desc) h

unfoldable pub head_matches_name_desc_fuzzy : Head → String → Bool
head_matches_name_desc_fuzzy h name_desc =
    not (is_regex name_desc) && either (λ s. strcasestr s name_desc) h

module _ (pf : Platform) where
  unfoldable pub head_matches_name_desc_regex : Head → String → Bool
  head_matches_name_desc_regex h name_desc =
      if ltb (strlen name_desc) 2 || not (is_regex name_desc)
      then false
      else if regex_compiles pf (some (tail_of name_desc))
      then either (λ s. regex_matches pf (some s) (some (tail_of name_desc))) h
      else false

  unfoldable pub head_matches_name_desc : Head → String → Bool
  unfolding head_matches_name_desc_exact head_matches_name_desc_regex head_matches_name_desc_fuzzy
  head_matches_name_desc h name_desc =
      head_matches_name_desc_exact h name_desc
      || head_matches_name_desc_regex h name_desc
      || head_matches_name_desc_fuzzy h name_desc

  -- Whether a head matches depends on its name and description alone.
  pub matches_congr :
      (g h : Head) (s : String)
      → g.name ≡ h.name
      → g.description ≡ h.description
      → head_matches_name_desc g s ≡ head_matches_name_desc h s
  unfolding head_matches_name_desc
  matches_congr g h s p q = rw (p, q)
