-- ===== src/Desire/Enabled.antt =====
-- What src/desire.c leaves of a head that it disables.
use way_displays.Prelude.{
  pick, ℕ, ◌≡◌, refl, ap, sym, ◌∙◌, Bool, true, false, not, Option, none, some, List, if◌then◌else◌,
  is_some, eqb_ℤ, pos, or_else, ◌==◌,
}
use way_displays.Enums.{LogThreshold}
use way_displays.Platform.{Platform}
use way_displays.Cfg.{Cfg}
use way_displays.Lid.{Lid}
use way_displays.Head.{Head, AdaptiveSync, vrr_disabled, vrr_enabled}
use way_displays.Head.Matching.{head_matches_name_desc}
use mathlib.Core.Bool.{false≢true}
use way_displays.Head.FindMode.{
  FindMode, Message, head_find_mode, warn_preferred, user_choice, user_mode, preferred,
}
use way_displays.Mode.{Mode}
use way_displays.Cfg.Disabled.{cfg_disabled_applies_to_head}
use way_displays.Desire.{
  Desired, set_mode, desire_enabled, desire_mode, desire_scale, desire_transform,
  desire_adaptive_sync, desire_scaled_dimensions, desire_reapply, desire_head, mode_at, scaled_to,
}

-- A head that is disabled is to have the mode and the adaptive sync that it has.
abbrev pub KeepsOutput : Head → Type 0
KeepsOutput h =
    h.des.enabled ≡ false
    → (h.des.zmode ≡ h.cur.zmode) × (h.des.adaptive_sync ≡ h.cur.adaptive_sync)

-- What is desired of the mode and the adaptive sync is what there is.
abbrev IsCopied : Head → Type 0
IsCopied h = (h.des.zmode ≡ h.cur.zmode) × (h.des.adaptive_sync ≡ h.cur.adaptive_sync)

not-false : (b : Bool) → not b ≡ false → b ≡ true
not-false true e = refl
not-false false e = sym e

abbrev SameState : Head → Head → Type 0
SameState h g = (g.des ≡ h.des) × (g.cur ≡ h.cur)

module _ (pf : Platform) where
  open pf use {lib, Real}
  open lib use {pp, sp, ss}

  desire_enabled-IsCopied :
      (cfg : Cfg Real) (lid : Option Lid) (heads : List (ℕ × Head)) (h : Head)
      → IsCopied h
      → IsCopied (desire_enabled pf cfg lid heads h)
  unfolding desire_enabled cfg_disabled_applies_to_head
  desire_enabled-IsCopied cfg lid heads h e = e

  same_warned : (p : Option Mode) (h : Head) → SameState h (warn_preferred pf p h).0
  same_warned (some m) h = (refl, refl)
  same_warned none h =
      pick (λ (r : Head × List (LogThreshold × Message)). SameState h r.0) h.warned_no_preferred _ _
        (λ t. (refl, refl)) (λ t. (refl, refl))

  same_found : (cfg : Cfg Real) (h : Head) → SameState h (head_find_mode pf cfg h).head
  unfolding head_find_mode
  same_found cfg h =
      let user = user_choice pf (user_mode pf cfg h) (preferred pf h) h.modes in
      pick (λ (r : FindMode). SameState h r.head) (pp.size h.modes == 0) _ _ (λ t. (refl, refl))
        (λ t. same_warned (or_else user (preferred pf h)) h)

  keeps_set :
      (z : Option ℕ) (h g : Head)
      → h.des.enabled ≡ true
      → IsCopied h
      → SameState h g
      → KeepsOutput (set_mode pf z g)
  keeps_set none h g e c (d, k) f = (
    ap (λ s. s.zmode) d ∙ c.0 ∙ sym (ap (λ s. s.zmode) k),
    ap (λ s. s.adaptive_sync) d ∙ c.1 ∙ sym (ap (λ s. s.adaptive_sync) k),
  )
  keeps_set (some z) h g e c (d, k) f =
      elim (false≢true (sym (sym e ∙ sym (ap (λ s. s.enabled) d) ∙ f))) [ ]

  keeps_mode : (cfg : Cfg Real) (h : Head) → IsCopied h → KeepsOutput (desire_mode pf cfg h).head
  unfolding desire_mode
  keeps_mode cfg h e =
      let found = head_find_mode pf cfg h in
      pick (λ (r : Desired Real). KeepsOutput r.head) h.des.enabled _ _
        (λ t. keeps_set found.zmode h found.head t e (same_found cfg h)) (λ t f. e)

  keeps_scale : (cfg : Cfg Real) (h : Head) → KeepsOutput h → KeepsOutput (desire_scale pf cfg h)
  unfolding desire_scale
  keeps_scale cfg h e = pick KeepsOutput h.des.enabled _ _ (λ t. e) (λ t. e)

  keeps_transform :
      (cfg : Cfg Real) (h : Head) → KeepsOutput h → KeepsOutput (desire_transform pf cfg h)
  unfolding desire_transform
  keeps_transform cfg h e = pick KeepsOutput h.des.enabled _ _ (λ t. e) (λ t. e)

  keeps_vrr :
      (h : Head) (v : AdaptiveSync)
      → h.des.enabled ≡ true
      → KeepsOutput (record h { des = record h.des { adaptive_sync = v } })
  keeps_vrr h v e f = elim (false≢true (sym (sym e ∙ f))) [ ]

  abbrev synced : Head → AdaptiveSync → Head
  synced h v = record h { des = record h.des { adaptive_sync = v } }

  keeps_adaptive_sync :
      (cfg : Cfg Real) (h : Head) → KeepsOutput h → KeepsOutput (desire_adaptive_sync pf cfg h)
  unfolding desire_adaptive_sync
  keeps_adaptive_sync cfg h e =
      let off = is_some (ss.find (λ v. head_matches_name_desc pf h v) cfg.adaptive_sync_off) in
      let chosen : Head = if off then synced h vrr_disabled else synced h vrr_enabled in
      let rest : Head = if h.adaptive_sync_failed then h else chosen in
      pick KeepsOutput (not h.des.enabled) h rest (λ t. e)
        (λ t.
          pick KeepsOutput h.adaptive_sync_failed h chosen (λ u. e)
            (λ u.
              pick KeepsOutput off (synced h vrr_disabled) (synced h vrr_enabled)
                (λ x. keeps_vrr h vrr_disabled (not-false h.des.enabled t))
                (λ x. keeps_vrr h vrr_enabled (not-false h.des.enabled t))))

  keeps_dimensions :
      (cfg : Cfg Real) (h : Head) → KeepsOutput h → KeepsOutput (desire_scaled_dimensions pf cfg h)
  unfolding desire_scaled_dimensions
  keeps_dimensions cfg h e =
      pick KeepsOutput (eqb_ℤ h.des.scale (pos 0)) _ _ (λ t. e)
        (λ t.
          elim (mode_at pf h h.des.zmode)
            as (λ x. KeepsOutput (elim x [ none ↦ h | some m ↦ scaled_to pf cfg h m ])) [
              | none ↦ e
              | some m ↦ e
            ])

  keeps_reapply :
      (h : Head)
      → KeepsOutput h
      → (desire_reapply h).reapply_required ≡ false
      → KeepsOutput (desire_reapply h)
  unfolding desire_reapply
  keeps_reapply h e =
      pick (λ (r : Head). r.reapply_required ≡ false → KeepsOutput r) h.reapply_required _ h
        (λ t n. elim (false≢true (sym n ∙ t)) [ ]) (λ t n. e)

  -- The mode and the adaptive sync are only changed of a head that is to be enabled: a head that is
  -- not to be reapplied and is to be disabled is to keep the mode and the adaptive sync it has.
  pub disabled_keeps_output :
      (cfg : Cfg Real) (lid : Option Lid) (heads : List (ℕ × Head)) (h : Head)
      → (desire_head pf cfg lid heads h).head.reapply_required ≡ false
      → (desire_head pf cfg lid heads h).head.des.enabled ≡ false
      → ((desire_head pf cfg lid heads h).head.des.zmode
          ≡ (desire_head pf cfg lid heads h).head.cur.zmode)
        × ((desire_head pf cfg lid heads h).head.des.adaptive_sync
            ≡ (desire_head pf cfg lid heads h).head.cur.adaptive_sync)
  unfolding desire_head
  disabled_keeps_output cfg lid heads h =
      let copied = desire_enabled pf cfg lid heads (record h { des = h.cur }) in
      let d = desire_mode pf cfg copied in
      let scaled = desire_scale pf d.cfg d.head in
      let turned = desire_transform pf d.cfg scaled in
      let synced' = desire_adaptive_sync pf d.cfg turned in
      keeps_reapply (desire_scaled_dimensions pf d.cfg synced') (
        keeps_dimensions d.cfg synced' (
          keeps_adaptive_sync d.cfg turned (
            keeps_transform d.cfg scaled (
              keeps_scale d.cfg d.head (
                keeps_mode cfg copied (
                  desire_enabled-IsCopied cfg lid heads (record h { des = h.cur })
                    (refl, refl)))))))
