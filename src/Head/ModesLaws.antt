-- ===== src/Head/ModesLaws.antt =====
-- What the operations of src/head.c on modes and descriptions leave behind.
use way_displays.Prelude.{
  ℕ, ◌==◌, ◌≡◌, ◌≤◌, ◌+◌, refl, ◌∙◌, inl, inr, true, ◌||◌, none, some, String, List, [], ◌∷◌,
  is_some, suc, zero, arith, Bool-cases, Option-cases, length,
}
use Prim.Native.Char.{code}
use way_displays.Prelude.Text.{codes, strlen}
use way_displays.Platform.{Platform}
use way_displays.Mode.{Mode}
use way_displays.Head.{Head}
use way_displays.Head.Modes.{drop_prefix, strip_null, head_release_mode, put_back, head_reapply}

drop_prefix-strlen :
    (p : List ℕ) (s r : String) → drop_prefix p s ≡ some r → strlen r + length p ≡ strlen s
unfolding strlen
drop_prefix-strlen [] s r h = ground arith
drop_prefix-strlen (c ∷ cs) String.[] r h = cc
drop_prefix-strlen (c ∷ cs) (String.◌∷◌ d s) r h = elim (Bool-cases (c == code d)) [
  | inl e ↦ omega (arith, drop_prefix-strlen cs s r (rw e at h))
  | inr e ↦ absurd (let q = rw e at h in cc)
]

-- With enough fuel the loop ends by its test.
strip_null_ends :
    (fuel : ℕ) (s : String)
    → strlen s ≤ fuel
    → drop_prefix (codes "(null) ") (strip_null fuel s) ≡ none
unfolding strip_null
strip_null_ends zero String.[] h = refl
strip_null_ends zero (String.◌∷◌ c s) h = absurd (unfold strlen in omega arith)
strip_null_ends (suc fuel) s h = elim (Option-cases (drop_prefix (codes "(null) ") s)) [
  | inl e ↦ rw (e, strip_null) e
  | inr (r, e) ↦
      rw (e, strip_null)
        (strip_null_ends fuel r (omega (arith, drop_prefix-strlen (codes "(null) ") s r e)))
]

module _ (pf : Platform) where
  open pf use {lib}
  open lib use {pp}

  get-put_back :
      (modes failed : List (ℕ × Mode)) (k : ℕ)
      → is_some (pp.get (put_back pf modes failed) k)
        ≡ (is_some (pp.get failed k) || is_some (pp.get modes k))
  unfolding put_back
  get-put_back modes [] k = ground (arith, pp.get_lem {V = Mode} [] k)
  get-put_back modes ((z, m) ∷ rest) k = ground (
    arith,
    get-put_back (pp.put modes z m) rest k,
    pp.get-put modes z k m,
    pp.get_lem ((z, m) ∷ rest) k,
    pp.get_lem rest k,
  )

  -- A reapply makes every failed mode available again, loses none, and marks the head, whose current
  -- mode is forgotten.
  reapply_lem :
      (head : Head) (k : ℕ)
      → let after = head_reapply pf head in
        (is_some (pp.get after.modes k)
          ≡ (is_some (pp.get head.modes_failed k) || is_some (pp.get head.modes k)))
        × (after.modes_failed ≡ [])
        × (after.reapply_required ≡ true)
        × (after.cur.zmode ≡ none)
  unfolding head_reapply
  reapply_lem head k = (get-put_back head.modes head.modes_failed k, refl, refl, refl)

  -- A mode that failed and is then finished by the compositor comes back with the next reapply,
  -- though its object has been destroyed.
  pub finished_mode_returns :
      (head : Head) (z : ℕ)
      → is_some (pp.get head.modes_failed z) ≡ true
      → is_some (pp.get (head_reapply pf (head_release_mode pf head z)).modes z) ≡ true
  finished_mode_returns head z h =
      (reapply_lem (head_release_mode pf head z) z).0 ∙ unfold head_release_mode in rw h
