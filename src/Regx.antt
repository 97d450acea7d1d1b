-- ===== src/Regx.antt =====
-- src/regx.c: matching of a text against a pattern. A NULL text or pattern is `none`.
use way_displays.Prelude.{Bool, true, false, Option, none, some, String}
use way_displays.Platform.{Platform}

module _ (pf : Platform) where
  open pf use {regcomp}

  unfoldable pub regex_matches : Option String → Option String → Bool
  regex_matches (some s) (some pattern) = elim (regcomp pattern) [
    | none ↦ false
    | some match ↦ match s
  ]
  regex_matches _ _ = false

  -- Whether the call returns no error.
  unfoldable pub regex_compiles : Option String → Bool
  regex_compiles none = true
  regex_compiles (some pattern) = elim (regcomp pattern) [ none ↦ false | some match ↦ true ]
