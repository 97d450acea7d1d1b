-- ===== src/Act/ApplyLaws.antt =====
-- What `act_apply` of src/act.c asks of the compositor in one go.
use way_displays.Prelude.{
  ℕ, ◌==◌, ◌≡◌, refl, ◌⊎◌, inl, inr, Option, List, [], ◌∷◌, ◌++◌, All, Bool-cases,
}
use way_displays.Enums.{DisplState}
use way_displays.Platform.{Platform}
use way_displays.Head.{Head, AdaptiveSync}
use way_displays.Displ.{displ_delta_destroy}
use way_displays.World.{
  World, Request, create_configuration, enable_head, disable_head, set_mode, set_adaptive_sync,
  apply,
}
use way_displays.Act.Apply.{
  Change, reapply, single_mode, single_vrr, others, other_requests, all_requests, change_requests,
  heads_changing, next_change, act_apply,
}

-- The request changes neither a mode nor the adaptive sync, and does not apply.
abbrev pub IsPlain : Request → Type 0
IsPlain (set_mode z m) = ⊥
IsPlain (set_adaptive_sync z a) = ⊥
IsPlain apply = ⊥
IsPlain _ = Unit

-- A configuration disables one head, or sets the mode of one head, or sets the adaptive sync of one
-- head, or sets no mode and no adaptive sync
-- and applies nothing.
abbrev pub IsOneKind : List Request → Type 0
IsOneKind body =
    ((z : ℕ) × (body ≡ disable_head z ∷ []))
    ⊎ (((z : ℕ) × (m : Option ℕ) × (body ≡ enable_head z ∷ set_mode z m ∷ []))
        ⊎ (((z : ℕ) × (a : AdaptiveSync) × (body ≡ enable_head z ∷ set_adaptive_sync z a ∷ []))
            ⊎ All IsPlain body))

All-++ : {A : Type 0} (P : A → Type 0) (xs ys : List A) → All P xs → All P ys → All P (xs ++ ys)
All-++ P [] ys a b = b
All-++ P (x ∷ xs) ys (p, a) b = (p, All-++ P xs ys a b)

other_requests-IsPlain : (e : ℕ × Head) → All IsPlain (other_requests e)
unfolding other_requests
other_requests-IsPlain (z, h) = elim (Bool-cases h.des.enabled) [
  | inl e ↦ rw e (tt, (tt, (tt, (tt, tt))))
  | inr e ↦ rw e (tt, tt)
]

all_requests-IsPlain : (es : List (ℕ × Head)) → All IsPlain (all_requests es)
unfolding all_requests
all_requests-IsPlain [] = tt
all_requests-IsPlain (e ∷ es) =
    All-++ IsPlain (other_requests e) (all_requests es) (other_requests-IsPlain e)
      (all_requests-IsPlain es)

module _ (pf : Platform) where
  open pf use {lib, Real}
  open lib use {pp}

  one_kind : (c : Change) (changing : List (ℕ × Head)) → IsOneKind (change_requests pf c changing)
  one_kind (reapply (z, h)) changing = inl (z, refl)
  one_kind (single_mode (z, h)) changing = inr (inl (z, h.des.zmode, refl))
  one_kind (single_vrr (z, h)) changing = inr (inr (inl (z, h.des.adaptive_sync, refl)))
  one_kind others changing = inr (inr (inr (all_requests-IsPlain changing)))

  -- From one world to a later one, either nothing is asked and the display is as idle as it was, or
  -- one configuration of one kind is made for the latest serial and applied, and is outstanding.
  abbrev pub Asked : World Real → World Real → Type 0
  Asked w v =
      ((v.requests ≡ w.requests) × (v.displ.state ≡ w.displ.state))
      ⊎ ((body : List Request) × IsOneKind body
          × (v.requests
              ≡ w.requests
                ++ (create_configuration w.displ.zwlr_output_manager_serial
                    ∷ (body ++ (apply ∷ []))))
          × (v.displ.state ≡ DisplState.outstanding))

  pub apply-Asked : (w : World Real) → Asked w (act_apply pf w)
  unfolding act_apply displ_delta_destroy
  apply-Asked w =
      let changing = heads_changing pf w.displ.heads in
      let c : Change = next_change pf changing in
      elim (Bool-cases (pp.size changing == 0)) [
        | inl e ↦ rw e (inl (refl, refl))
        | inr e ↦ rw e (inr (change_requests pf c changing, one_kind c changing, refl, refl))
      ]
