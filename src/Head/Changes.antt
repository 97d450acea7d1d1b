-- ===== src/Head/Changes.antt =====
-- The predicates of src/head.c that compare what is current with what is desired.
use way_displays.Prelude.{
  sym, subst, ℕ, ◌==◌, eqb_ℤ, Bool, true, false, ◌||◌, not, Option, none, some, ◌≡◌, arith,
}
use way_displays.Mode.{eqb_Bool}
use way_displays.Head.{Head, HeadState, AdaptiveSync, vrr_disabled, vrr_enabled}

-- Equality of pointers.
abbrev pub ptr_eq : Option ℕ → Option ℕ → Bool
ptr_eq none none = true
ptr_eq (some a) (some b) = a == b
ptr_eq _ _ = false

abbrev pub vrr_eq : AdaptiveSync → AdaptiveSync → Bool
vrr_eq vrr_disabled vrr_disabled = true
vrr_eq vrr_enabled vrr_enabled = true
vrr_eq _ _ = false

unfoldable pub head_current_not_desired : Head → Bool
head_current_not_desired h =
    h.reapply_required
    || not (ptr_eq h.des.zmode h.cur.zmode)
    || not (eqb_ℤ h.des.scale h.cur.scale)
    || not (eqb_Bool h.des.enabled h.cur.enabled)
    || not (eqb_ℤ h.des.x h.cur.x)
    || not (eqb_ℤ h.des.y h.cur.y)
    || not (h.des.transform == h.cur.transform)
    || not (vrr_eq h.des.adaptive_sync h.cur.adaptive_sync)

unfoldable pub head_current_mode_not_desired : Head → Bool
head_current_mode_not_desired h = not (ptr_eq h.des.zmode h.cur.zmode)

unfoldable pub head_current_adaptive_sync_not_desired : Head → Bool
head_current_adaptive_sync_not_desired h = not (vrr_eq h.des.adaptive_sync h.cur.adaptive_sync)

unfoldable pub head_reapply_required : Head → Bool
head_reapply_required h = h.reapply_required

-- A head needs no change exactly when no reapply is due and the current state is the desired one.
pub settled_of :
    (h : Head) → head_current_not_desired h ≡ false → (h.reapply_required ≡ false) × (h.cur ≡ h.des)
unfolding head_current_not_desired
settled_of h e = ground arith

ptr_eq_refl : (p : Option ℕ) → ptr_eq p p ≡ true
ptr_eq_refl p = ground arith

same_state :
    (s : HeadState) (h : Head)
    → h.reapply_required ≡ false
    → head_current_not_desired (record h { cur = s; des = s }) ≡ false
unfolding head_current_not_desired
same_state s h e = ground (arith, ptr_eq_refl s.zmode)

pub of_settled :
    (h : Head) → h.reapply_required ≡ false → h.cur ≡ h.des → head_current_not_desired h ≡ false
of_settled h e q =
    subst (λ s. head_current_not_desired (record h { cur = s }) ≡ false) (sym q)
      (same_state h.des h e)
