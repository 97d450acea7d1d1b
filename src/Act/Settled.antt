-- ===== src/Act/Settled.antt =====
-- When `act_apply` of src/act.c asks for nothing.
use mathlib.Core.Bool.{false≢true}
use way_displays.Prelude.{
  ℕ, ◌==◌, ==_iff, ◌≡◌, refl, sym, ap, subst, ◌∙◌, ◌↔◌, inl, inr, true, false, List, [], ◌∷◌, ◌++◌,
  All, In, length, length-append, select, In-select, is_some, arith, Bool-cases,
}
use way_displays.Platform.{Platform}
use way_displays.Head.{Head}
use way_displays.Head.Changes.{head_current_not_desired, settled_of, of_settled}
use way_displays.Displ.{displ_delta_destroy}
use way_displays.World.{World}
use way_displays.Act.Apply.{collect, heads_changing, act_apply}

-- No reapply is due, and what there is is what is desired.
abbrev pub IsSettled : ℕ × Head → Type 0
IsSettled e = (e.1.reapply_required ≡ false) × (e.1.cur ≡ e.1.des)

All-from : {A : Type 0} (P : A → Type 0) (xs : List A) → ((x : A) → In x xs → P x) → All P xs
All-from P [] f = tt
All-from P (x ∷ xs) f = (f x (inl refl), All-from P xs (λ y i. f y (inr i)))

grown : {A : Type 0} (xs ys : List A) (y : A) → xs ++ (y ∷ ys) ≡ xs → ⊥
grown xs ys y e =
    let same : length (xs ++ (y ∷ ys)) ≡ length xs = ap length e in
    omega (arith, same, length-append xs (y ∷ ys))

module _ (pf : Platform) where
  open pf use {lib, Real}
  open lib use {pp}

  get-put-same :
      (acc : List (ℕ × Head)) (z : ℕ) (h : Head) → is_some (pp.get (pp.put acc z h) z) ≡ true
  get-put-same acc z h = rw (pp.get-put acc z z h, (==_iff z z).1 refl)

  collect-kept :
      (l acc : List (ℕ × Head)) (k : ℕ)
      → is_some (pp.get acc k) ≡ true
      → is_some (pp.get (collect pf acc l) k) ≡ true
  unfolding collect
  collect-kept [] acc k e = e
  collect-kept ((z, h) ∷ l) acc k e =
      collect-kept l (pp.put acc z h) k (ground (arith, e, pp.get-put acc z k h))

  collect-found :
      (l acc : List (ℕ × Head)) (e : ℕ × Head)
      → In e l
      → is_some (pp.get (collect pf acc l) e.0) ≡ true
  unfolding collect
  collect-found [] acc e i = absurd i
  collect-found (x ∷ l) acc e (inl q) =
      subst (λ (y : ℕ × Head). is_some (pp.get (collect pf (pp.put acc x.0 x.1) l) y.0) ≡ true) q
        (collect-kept l (pp.put acc x.0 x.1) x.0 (get-put-same acc x.0 x.1))
  collect-found (x ∷ l) acc e (inr i) = collect-found l (pp.put acc x.0 x.1) e i

  size-found :
      (m : List (ℕ × Head)) (k : ℕ) → is_some (pp.get m k) ≡ true → (pp.size m == 0) ≡ false
  size-found [] k e = absurd (false≢true (sym (ap is_some (pp.get_lem [] k)) ∙ e))
  size-found (x ∷ m) k e = ground (arith, pp.size_lem (x ∷ m))

  changing-found :
      (heads : List (ℕ × Head)) (e : ℕ × Head)
      → In e heads
      → head_current_not_desired e.1 ≡ true
      → (pp.size (heads_changing pf heads) == 0) ≡ false
  unfolding heads_changing
  changing-found heads e i c = size-found (heads_changing pf heads) e.0 (
      collect-found (pp.filter_it (λ x. head_current_not_desired x.1) heads) [] e (
        subst (In e) (sym (pp.filter_it_lem (λ x. head_current_not_desired x.1) heads))
          (In-select (λ x. head_current_not_desired x.1) e heads i c)))

  select-settled :
      (heads : List (ℕ × Head))
      → All IsSettled heads
      → select (λ x. head_current_not_desired x.1) heads ≡ []
  select-settled [] a = refl
  select-settled (x ∷ heads) a = rw (of_settled x.1 a.0.0 a.0.1) (select-settled heads a.1)

  changing-settled :
      (heads : List (ℕ × Head))
      → All IsSettled heads
      → (pp.size (heads_changing pf heads) == 0) ≡ true
  unfolding heads_changing collect
  changing-settled heads a =
      rw (pp.filter_it_lem (λ x. head_current_not_desired x.1) heads, select-settled heads a)
        (ground (arith, pp.size_lem {V = Head} []))

  asks_some :
      (w : World Real)
      → (pp.size (heads_changing pf w.displ.heads) == 0) ≡ false
      → (act_apply pf w).requests ≡ w.requests
      → ⊥
  unfolding act_apply displ_delta_destroy
  asks_some w n = rw n λ e. grown w.requests _ _ e

  -- Nothing is asked of the compositor exactly when no head waits for a reapply and every head is as
  -- it is desired.
  pub apply-IsSettled :
      (w : World Real) → ((act_apply pf w).requests ≡ w.requests) ↔ All IsSettled w.displ.heads
  unfolding act_apply displ_delta_destroy
  apply-IsSettled w = (
    λ quiet. All-from IsSettled w.displ.heads λ e i.
        elim (Bool-cases (head_current_not_desired e.1)) [
          | inl t ↦ absurd (asks_some w (changing-found w.displ.heads e i t) quiet)
          | inr t ↦ settled_of e.1 t
        ],
    λ a. rw (changing-settled w.displ.heads a) refl,
  )
