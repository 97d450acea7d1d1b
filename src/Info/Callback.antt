-- ===== src/Info/Callback.antt =====
-- src/info/callback.c: whether the command of the user is run, with which message and level. Spawning it is
-- input and output.
use Prim.Native.Nat.{ℕ, zero, suc}
use way_displays.Prelude.{ltb, Bool, true, false, Option, none, some, String, if◌then◌else◌}
use way_displays.Prelude.Text.{append}
use way_displays.Enums.{LogThreshold, log_threshold_code}
use way_displays.Cfg.{Cfg}
use way_displays.Prelude.{pos, div_ℤ, ◌-ℤ◌, ◌*ℤ◌}
use way_displays.Platform.{Platform}
use way_displays.Mode.{Mode, mode_hz_rounded}
use way_displays.Head.{Head}
use way_displays.Head.Changes.{ptr_eq}
use way_displays.Info.{Format, text_of, head_human}
use way_displays.Info.Delta.{◌+++◌}

-- What is run, with its environment.
pub record Spawn : Type 0 where
  pub command : String
  pub callback_msg : String
  pub callback_level : LogThreshold

abbrev callback_msg_len : ℕ
callback_msg_len = 65536

-- `snprintf` into that many characters, of which the last ends the text.
abbrev pub snprintf : ℕ → String → String
snprintf zero s = ""
snprintf (suc zero) s = ""
snprintf (suc (suc n)) String.[] = ""
snprintf (suc (suc n)) (String.◌∷◌ c s) = String.◌∷◌ c (snprintf (suc n) s)

abbrev pub or_empty : Option String → String
or_empty none = ""
or_empty (some s) = s

abbrev filled : Option String → Bool
filled none = false
filled (some String.[]) = false
filled (some (String.◌∷◌ c s)) = true

-- The command is a text that is not empty.
unfoldable pub callback_cmd_valid : {Real : Type 0} → Option (Cfg Real) → Bool
callback_cmd_valid none = false
callback_cmd_valid (some cfg) = filled cfg.callback_cmd

abbrev command_of : {Real : Type 0} → Option (Cfg Real) → String
command_of none = ""
command_of (some cfg) = or_empty cfg.callback_cmd

-- A message below the threshold of the log is not passed on.
unfoldable pub callback_with_cfg :
    {Real : Type 0}
    → LogThreshold
    → LogThreshold
    → Option (Cfg Real)
    → Option String
    → Option String
    → Option Spawn
unfolding callback_cmd_valid
callback_with_cfg t_cur t cfg msg1 msg2 =
    if callback_cmd_valid cfg
    then if ltb (log_threshold_code t) (log_threshold_code t_cur)
      then none
      else some (record {
        command = command_of cfg;
        callback_msg = snprintf callback_msg_len (append (or_empty msg1) (or_empty msg2));
        callback_level = t;
      })
    else none

-- `mode_str_pref` of src/mode.c. The remainder has the sign of the number.
unfoldable pub mode_str_pref : {Real : Type 0} → Format Real → Option Mode → Bool → Option String
unfolding mode_hz_rounded
mode_str_pref fmt none pref = none
mode_str_pref fmt (some m) pref =
    let whole = div_ℤ m.refresh_mhz 1000 in
    some (
      fmt.int m.width
      +++ "x"
      +++ fmt.int m.height
      +++ "@"
      +++ fmt.int (mode_hz_rounded (some m))
      +++ "Hz ("
      +++ fmt.int whole
      +++ ","
      +++ fmt.zero_padded 3 (m.refresh_mhz -ℤ whole *ℤ pos 1000)
      +++ "mHz)"
      +++ (if pref then " (preferred)" else ""))

abbrev model_of : Head → String
model_of head = elim head.model [ none ↦ "name_desc" | some model ↦ model ]

-- `g_cfg` is an argument, and so is the threshold of the log.
module _ (pf : Platform) (fmt : Format pf.Real) (t_cur : LogThreshold)
    (cfg : Option (Cfg pf.Real)) where
  open pf use {lib}
  open lib use {pp}

  unfoldable pub callback : LogThreshold → Option String → Option String → Option Spawn
  unfolding callback_with_cfg
  callback t msg1 msg2 = callback_with_cfg t_cur t cfg msg1 msg2

  unfoldable pub callback_mode_fail : LogThreshold → Option Head → Option ℕ → Option Spawn
  unfolding callback_with_cfg mode_str_pref head_human
  callback_mode_fail t none zmode = none
  callback_mode_fail t (some head) none = none
  callback_mode_fail t (some head) (some zmode) =
      let str = mode_str_pref fmt (pp.get head.modes zmode) (ptr_eq head.zmode_pref (some zmode)) in
      if callback_cmd_valid cfg
      then callback_with_cfg t_cur t cfg
          (some
            (head_human (some head) +++ "\n  Unable to set mode " +++ text_of str +++ ", retrying"))
          none
      else none

  unfoldable pub callback_adaptive_sync_fail : LogThreshold → Option Head → Option Spawn
  unfolding callback_with_cfg head_human
  callback_adaptive_sync_fail t none = none
  callback_adaptive_sync_fail t (some head) =
      if callback_cmd_valid cfg
      then callback_with_cfg t_cur t cfg
          (some (
            head_human (some head)
            +++ "\n  Cannot enable VRR.\n  You can disable VRR for this display in cfg.yaml\nVRR_OFF:\n- '"
            +++ model_of head
            +++ "'"))
          none
      else none
