-- ===== src/Info/Delta.antt =====
-- src/info/delta.c: the texts that describe a change that is asked for.
use Prim.Native.Nat.{ℕ, zero, suc}
use way_displays.Prelude.{
  ◌==◌, ℤ, eqb_ℤ, ◌&&◌, ◌||◌, not, Option, none, some, String, List, [], ◌∷◌, if◌then◌else◌,
}
use way_displays.Prelude.Text.{append}
use way_displays.Enums.Names.{_name, transforms}
use way_displays.Platform.{Platform}
use way_displays.Mode.{Mode, mode_hz_rounded}
use way_displays.Head.{Head, AdaptiveSync, vrr_enabled, vrr_disabled}
use way_displays.Head.Changes.{head_current_not_desired}
use way_displays.Yaml.Marshal.{flat}
use way_displays.Info.{Format, text_of, head_human}

infixr 20 ◌+++◌
abbrev pub ◌+++◌ : String → String → String
a +++ b = append a b

-- `sprintf_append`: NULL is as the empty text.
abbrev pub sprintf_append : Option String → String → Option String
sprintf_append none s = some s
sprintf_append (some d) s = some (append d s)

abbrev without_last : String → String
without_last String.[] = ""
without_last (String.◌∷◌ c String.[]) = ""
without_last (String.◌∷◌ c s) = String.◌∷◌ c (without_last s)

abbrev pub strip_last : Option String → Option String
strip_last none = none
strip_last (some s) = some (without_last s)

abbrev transform_text : ℕ → String
transform_text zero = "none"
transform_text (suc t) = text_of (flat (_name transforms (suc t)))

abbrev vrr_text : AdaptiveSync → String
vrr_text vrr_enabled = "on"
vrr_text vrr_disabled = "off"

module _ (pf : Platform) (fmt : Format pf.Real) where
  open pf use {lib, Real, wl_fixed_to_double}
  open lib use {pp}

  abbrev pub human : Head → String
  human head = head_human (some head)

  abbrev pub disabled_text : Head → Option String → String
  disabled_text head none = human head +++ "\n  disabled\n"
  disabled_text head (some reason) = human head +++ "\n  disabled: " +++ reason +++ "\n"

  abbrev pub scale_text : Head → Option String → Option String
  scale_text head delta = sprintf_append delta (
      "  scale:     "
      +++ fmt.three (wl_fixed_to_double head.cur.scale)
      +++ " -> "
      +++ fmt.three (wl_fixed_to_double head.des.scale)
      +++ "\n")

  abbrev pub transform_change : Head → Option String → Option String
  transform_change head delta = sprintf_append delta (
      "  transform: "
      +++ transform_text head.cur.transform
      +++ " -> "
      +++ transform_text head.des.transform
      +++ "\n")

  abbrev position : ℤ → ℤ → String
  position x y = fmt.int x +++ "," +++ fmt.int y

  abbrev pub position_change : Head → Option String → Option String
  position_change head delta = sprintf_append delta (
      "  position:  "
      +++ position head.cur.x head.cur.y
      +++ " -> "
      +++ position head.des.x head.des.y
      +++ "\n")

  -- What else changes of a head that stays enabled, or disabled.
  unfoldable pub changes_text : Head → Option String → Option String
  changes_text head delta =
      let named = sprintf_append delta (human head +++ "\n") in
      let scaled =
        if not (eqb_ℤ head.cur.scale head.des.scale) then scale_text head named else named in
      let turned =
        if not (head.cur.transform == head.des.transform)
        then transform_change head scaled
        else scaled in
      if not (eqb_ℤ head.cur.x head.des.x) || not (eqb_ℤ head.cur.y head.des.y)
      then position_change head turned
      else turned

  -- One round of the loop: disabling and enabling are their own operations.
  unfoldable pub head_delta : Head → Option String → Option String
  unfolding changes_text head_human
  head_delta head delta =
      if head.cur.enabled && not head.des.enabled
      then sprintf_append delta (disabled_text head head.disabled_condition_desc)
      else if not head.cur.enabled && head.des.enabled
      then sprintf_append delta (human head +++ "\n  enabled\n")
      else if head_current_not_desired head
      then changes_text head delta
      else delta

  unfoldable pub heads_delta : List (ℕ × Head) → Option String → Option String
  unfolding head_delta
  heads_delta [] delta = delta
  heads_delta ((z, head) ∷ rest) delta = heads_delta rest (head_delta head delta)

  -- The trailing newline is taken off. (A NULL map of heads gives NULL.)
  unfoldable pub delta_human : List (ℕ × Head) → Option String
  unfolding heads_delta
  delta_human heads = strip_last (heads_delta heads none)

  abbrev pub mode_text : Option Mode → String
  mode_text none = "(no mode)"
  mode_text (some m) =
      fmt.int m.width
      +++ "x"
      +++ fmt.int m.height
      +++ "@"
      +++ fmt.int (mode_hz_rounded (some m))
      +++ "Hz"

  abbrev mode_for : Head → Option ℕ → Option Mode
  mode_for head none = none
  mode_for head (some z) = pp.get head.modes z

  unfoldable pub delta_human_mode : Option Head → Option String
  unfolding head_human mode_hz_rounded
  delta_human_mode none = none
  delta_human_mode (some head) = some (
      human head
      +++ "\n  "
      +++ mode_text (mode_for head head.cur.zmode)
      +++ " -> "
      +++ mode_text (mode_for head head.des.zmode))

  unfoldable pub delta_human_adaptive_sync : Option Head → Option String
  unfolding head_human
  delta_human_adaptive_sync none = none
  delta_human_adaptive_sync (some head) =
      some (human head +++ "\n  VRR " +++ vrr_text head.des.adaptive_sync)

  unfoldable pub delta_human_reapply : Option Head → Option String
  unfolding head_human
  delta_human_reapply none = none
  delta_human_reapply (some head) = some (human head +++ "\n  disabled\n  modes reset")
