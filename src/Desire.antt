-- ===== src/Desire.antt =====
-- src/desire.c, for one head: what is desired of it, from the configuration, the lid and the heads.
-- `heads` is `g_displ->heads`, of which a head only matters for what matches it and whether it is
-- the only one.
pub mod Order
pub mod OrderLaws
pub mod Positions
pub mod Aligned
pub mod Line
pub mod Row
pub mod Column
pub mod Enabled
pub mod Override
pub mod All
use way_displays.Prelude.{
  ℕ, ◌==◌, ◌%◌, ◌*◌, ℤ, pos, negsuc, ◌*ℤ◌, ◌+ℤ◌, eqb_ℤ, div_ℤ, floor_div, Bool, true, false, not,
  Option, none, some, String, List, [], ◌∷◌, if◌then◌else◌, is_some, suc, zero,
}
use way_displays.Enums.{ManualOverride, OnOff, LogThreshold}
use way_displays.Platform.{Platform}
use way_displays.Mode.{Mode}
use way_displays.Cfg.{Cfg}
use way_displays.Cfg.Disabled.{cfg_disabled_applies_to_head}
use way_displays.Head.{Head, HeadState, vrr_disabled, vrr_enabled}
use way_displays.Head.Matching.{head_matches_name_desc}
use way_displays.Head.FindMode.{Message, head_find_mode}
use way_displays.Head.Scale.{round_base, head_get_fixed_scale, head_auto_scale}
use way_displays.Lid.{Lid}

abbrev overridden_to : ManualOverride → Option Bool
overridden_to ManualOverride.no_override = none
overridden_to ManualOverride.override_true = some true
overridden_to ManualOverride.override_false = some false

-- The override is reset where it says what holds without it.
abbrev pub reset_override : Bool → ManualOverride → ManualOverride
reset_override true ManualOverride.override_true = ManualOverride.no_override
reset_override false ManualOverride.override_false = ManualOverride.no_override
reset_override _ o = o

-- The `switch` on the override.
abbrev pub decided : Bool → ManualOverride → Bool
decided enabled ManualOverride.no_override = enabled
decided enabled ManualOverride.override_true = true
decided enabled ManualOverride.override_false = false

unfoldable pub desire_reapply : Head → Head
desire_reapply head =
    if head.reapply_required
    then record head { des = record head.des { enabled = false } }
    else head

-- What a step of `desire` leaves: the head, the configured modes (which remember what was warned
-- of) and the messages.
pub record Desired (Real : Type 0) : Type 0 where
  pub cfg : Cfg Real
  pub head : Head
  pub messages : List (LogThreshold × Message)

module _ (pf : Platform) where
  open pf use {lib, Real, of_int, div, out_of_range}
  open lib use {pp, sp, ss}

  unfoldable pub desire_enabled : Cfg Real → Option Lid → List (ℕ × Head) → Head → Head
  desire_enabled cfg lid heads head =
      let (disabled, head') =
        cfg_disabled_applies_to_head pf heads lid (pp.size heads == 1) cfg.disableds head in
      let override = reset_override (not disabled) head.overrided_enabled in
      record head' {
        overrided_enabled = override;
        des = record head.des { enabled = decided (not disabled) override };
      }

  abbrev set_mode : Option ℕ → Head → Head
  set_mode (some z) head = record head { des = record head.des { zmode = some z } }
  set_mode none head = record head {
    warned_no_mode = true;
    des = record head.des { enabled = false };
  }

  unfoldable pub desire_mode : Cfg Real → Head → Desired Real
  desire_mode cfg head =
      let found = head_find_mode pf cfg head in
      let set : Desired Real = record {
        cfg = record cfg { modes = found.modes_cfg };
        head = set_mode found.zmode found.head;
        messages = found.messages;
      } in
      if head.des.enabled then set else record { cfg = cfg; head = head; messages = [] }

  abbrev is_off : Option OnOff → Bool
  is_off (some OnOff.off) = true
  is_off _ = false

  abbrev is_on : Option OnOff → Bool
  is_on (some OnOff.on) = true
  is_on _ = false

  -- The scale: 1 where scaling is off, the user's, the automatic one, or 1.
  unfoldable pub desired_scale : Cfg Real → Head → ℤ
  desired_scale cfg head =
      if is_off cfg.scaling
      then head_get_fixed_scale pf cfg (of_int (pos 1))
      else elim (sp.find (λ e. head_matches_name_desc pf head e.0) cfg.scales) [
        | some (key, milli) ↦
            head_get_fixed_scale pf cfg (div (of_int (pos milli)) (of_int (pos 1000)))
        | none ↦
            if is_on cfg.auto_scale
            then head_auto_scale pf cfg head cfg.auto_scale_min cfg.auto_scale_max
            else head_get_fixed_scale pf cfg (of_int (pos 1))
      ]

  unfoldable pub desire_scale : Cfg Real → Head → Head
  unfolding desired_scale
  desire_scale cfg head =
      if head.des.enabled
      then record head { des = record head.des { scale = desired_scale cfg head } }
      else head

  -- `simap_find(...).val` is 0, the normal transform, where nothing matches.
  abbrev transform_for : Option (String × ℕ) → ℕ
  transform_for none = 0
  transform_for (some (key, t)) = t

  unfoldable pub desire_transform : Cfg Real → Head → Head
  desire_transform cfg head =
      let t = transform_for (sp.find (λ e. head_matches_name_desc pf head e.0) cfg.transforms) in
      if head.des.enabled then record head { des = record head.des { transform = t } } else head

  unfoldable pub desire_adaptive_sync : Cfg Real → Head → Head
  desire_adaptive_sync cfg head =
      if not head.des.enabled
      then head
      else if head.adaptive_sync_failed
      then head
      else if is_some (ss.find (λ v. head_matches_name_desc pf head v) cfg.adaptive_sync_off)
      then record head { des = record head.des { adaptive_sync = vrr_disabled } }
      else record head { des = record head.des { adaptive_sync = vrr_enabled } }

  -- `floor((double)length * b / f)`; by 0 it is out of the range of an int32_t.
  abbrev pub scaled_by : ℤ → ℤ → ℤ
  scaled_by (pos zero) n = out_of_range
  scaled_by (pos (suc f)) n = floor_div n (suc f)
  scaled_by (negsuc f) n = floor_div (n *ℤ negsuc 0) (suc f)

  -- `f` is `(double)scale / 256 * b + 0.5`, truncated.
  unfoldable pub desired_scaled_length : Cfg Real → ℤ → ℤ → ℤ
  desired_scaled_length cfg scale length =
      let b = round_base cfg.scale_round_to in
      scaled_by (div_ℤ (scale *ℤ pos (b * 2) +ℤ pos 256) 512) (length *ℤ pos b)

  abbrev pub is_upright : ℕ → Bool
  is_upright transform = transform % 2 == 0

  abbrev scaled_to : Cfg Real → Head → Mode → Head
  scaled_to cfg head m = record head {
    scaled_width =
        desired_scaled_length cfg head.des.scale
          (if is_upright head.des.transform then m.width else m.height);
    scaled_height =
        desired_scaled_length cfg head.des.scale
          (if is_upright head.des.transform then m.height else m.width);
  }

  abbrev pub mode_at : Head → Option ℕ → Option Mode
  mode_at head none = none
  mode_at head (some z) = pp.get head.modes z

  unfoldable pub desire_scaled_dimensions : Cfg Real → Head → Head
  unfolding desired_scaled_length
  desire_scaled_dimensions cfg head =
      if eqb_ℤ head.des.scale (pos 0)
      then head
      else elim (mode_at head head.des.zmode) [ none ↦ head | some m ↦ scaled_to cfg head m ]

  -- The body of the loop of `desire`.
  unfoldable pub desire_head : Cfg Real → Option Lid → List (ℕ × Head) → Head → Desired Real
  desire_head cfg lid heads head =
      let copied = record head { des = head.cur } in
      let d = desire_mode cfg (desire_enabled cfg lid heads copied) in
      let scaled = desire_scale d.cfg d.head in
      let turned = desire_transform d.cfg scaled in
      let synced = desire_adaptive_sync d.cfg turned in
      let sized = desire_scaled_dimensions d.cfg synced in
      record { cfg = d.cfg; head = desire_reapply sized; messages = d.messages }
