-- ===== src/Head/FindMode.antt =====
-- `head_find_mode` of src/head.c: the mode to set, from the configuration, the preference of the head or
-- the maximum. A message that the program logs and hands to the callback is a value that names its
-- kind; the wording is not modelled.
use text.Mathlib.Text.{◌==◌ as str_eq}
use way_displays.Prelude.{
  ℕ, ◌==◌, true, Option, none, some, String, List, [], ◌∷◌, ◌++◌, if◌then◌else◌, or_else,
}
use way_displays.Enums.{LogThreshold}
use way_displays.Platform.{Platform}
use way_displays.Mode.{Mode, mode_same, mode_best_satisfying, mode_max_refresh, mode_max}
use way_displays.Cfg.{Cfg}
use way_displays.Head.{Head}
use way_displays.Head.Matching.{head_matches_name_desc}

-- What the user is told, beside the log: the arguments of `callback`.
pub data Message : Type 0 where
  no_mode no_user_mode no_preferred : ℕ → Message
  changes_successful changes_failed gave_up : Message
  retrying : ℕ → Message
  mode_failed vrr_failed : ℕ → Message

pub record FindMode : Type 0 where
  pub zmode : Option ℕ
  pub head : Head
  pub modes_cfg : List (String × Mode)
  pub messages : List (LogThreshold × Message)

-- `cfg_mode->warned_no_mode = true`, through the pointer to the value of the entry.
abbrev pub warn_user_mode : String → List (String × Mode) → List (String × Mode)
warn_user_mode k [] = []
warn_user_mode k ((j, m) ∷ rest) =
    if str_eq j k
    then (j, record m { warned_no_mode = true }) ∷ rest
    else (j, m) ∷ warn_user_mode k rest

module _ (pf : Platform) where
  open pf use {lib, Real}
  open lib use {pp, sp}

  -- The configured mode for the head.
  unfoldable pub user_mode : Cfg Real → Head → Option (String × Mode)
  user_mode cfg head = sp.find (λ e. head_matches_name_desc pf head e.0) cfg.modes

  -- The modes that satisfy the configured one, then the highest refresh at the preferred
  -- resolution where that is asked for.
  unfoldable pub user_choice : Option (String × Mode) → Option Mode → List (ℕ × Mode) → Option Mode
  user_choice none mode_pref modes = none
  user_choice (some (k, cfg_mode)) mode_pref modes =
      or_else (mode_best_satisfying lib (some cfg_mode) modes)
        (if cfg_mode.max_preferred_refresh then mode_max_refresh lib mode_pref modes else none)

  -- A configured mode that is not available is warned of once.
  abbrev pub warn_user :
      Option (String × Mode)
      → Option Mode
      → Head
      → List (String × Mode)
      → List (String × Mode) × List (LogThreshold × Message)
  warn_user none chosen head modes_cfg = (modes_cfg, [])
  warn_user (some (k, cfg_mode)) (some m) head modes_cfg = (modes_cfg, [])
  warn_user (some (k, cfg_mode)) none head modes_cfg =
      if cfg_mode.warned_no_mode
      then (modes_cfg, [])
      else (warn_user_mode k modes_cfg, (LogThreshold.warning, Message.no_user_mode head.addr) ∷ [])

  -- So is a head that has no preferred mode to fall back to.
  abbrev pub warn_preferred : Option Mode → Head → Head × List (LogThreshold × Message)
  warn_preferred (some m) head = (head, [])
  warn_preferred none head = if head.warned_no_preferred then (head, []) else (
    record head { warned_no_preferred = true },
    (LogThreshold.warning, Message.no_preferred head.addr) ∷ [],
  )

  abbrev pub preferred : Head → Option Mode
  preferred head = elim head.zmode_pref [ none ↦ none | some z ↦ pp.get head.modes z ]

  -- The mode, before it is turned back into its key.
  unfoldable pub choice : Cfg Real → Head → Option Mode
  unfolding user_choice user_mode
  choice cfg head =
      let user = user_choice (user_mode cfg head) (preferred head) head.modes in
      or_else (or_else user (preferred head)) (mode_max head.modes)

  abbrev key_for : Option Mode → List (ℕ × Mode) → Option ℕ
  key_for none modes = none
  key_for (some m) modes = pp.first_key mode_same modes m

  unfoldable pub head_find_mode : Cfg Real → Head → FindMode
  unfolding choice
  head_find_mode cfg head =
      if pp.size head.modes == 0
      then record {
        zmode = none;
        head = head;
        modes_cfg = cfg.modes;
        messages = (LogThreshold.error, Message.no_mode head.addr) ∷ [];
      }
      else let user = user_choice (user_mode cfg head) (preferred head) head.modes in
        let (modes_cfg, warned) = warn_user (user_mode cfg head) user head cfg.modes in
        let fallback = or_else user (preferred head) in
        let (head', informed) = warn_preferred fallback head in
        record {
          zmode = key_for (choice cfg head) head.modes;
          head = head';
          modes_cfg = modes_cfg;
          messages = warned ++ informed;
        }
