-- ===== src/Desire/OrderLaws.antt =====
-- Laws of `desire_order` of src/desire.c.
use mathlib.Core.List.{Perm, perm_middle}
use mathlib.Core.List.Perm
use way_displays.Prelude.{
  ℕ, ◌≡◌, refl, sym, ap, ◌∙◌, subst, Bool, not, String, List, [], ◌∷◌, ◌++◌, map, select,
  Bool-cases, inl, inr,
}
use way_displays.Platform.{Platform}
use way_displays.Head.{Head}
use way_displays.Head.Matching.{
  head_matches_name_desc_exact, head_matches_name_desc_regex, head_matches_name_desc_fuzzy,
}
use way_displays.Desire.Order.{Buckets, fill_order_buckets, marshal, empty_buckets, desire_order}

append_assoc : {A : Type 0} (a b c : List A) → (a ++ b) ++ c ≡ a ++ (b ++ c)
append_assoc [] b c = refl
append_assoc (x ∷ a) b c = ap (λ l. x ∷ l) (append_assoc a b c)

append_nil : {A : Type 0} (a : List A) → a ++ [] ≡ a
append_nil [] = refl
append_nil (x ∷ a) = ap (λ l. x ∷ l) (append_nil a)

from_eq : {A : Type 0} {a b : List A} → a ≡ b → Perm a b
from_eq {a} e = subst (λ l. Perm a l) e (Perm.refl a)

swap_perm : {A : Type 0} (a b : List A) → Perm (a ++ b) (b ++ a)
swap_perm [] b = from_eq (sym (append_nil b))
swap_perm (x ∷ a) b = Perm.trans (Perm.cons x (swap_perm a b)) (Perm.symm (perm_middle b a))

select_perm :
    {A : Type 0} (p : A → Bool) (l : List A) → Perm (select p l ++ select (λ a. not (p a)) l) l
select_perm p [] = Perm.refl []
select_perm p (x ∷ l) = elim (Bool-cases (p x)) [
  | inl e ↦ rw e (Perm.cons x (select_perm p l))
  | inr e ↦ rw e (
      Perm.trans (perm_middle (select p l) (select (λ a. not (p a)) l))
        (Perm.cons x (select_perm p l)))
]

-- What moves from the back to the front of the middle.
moved_perm :
    {A : Type 0} (b s m n c : List A)
    → Perm (s ++ n) c
    → Perm ((b ++ s) ++ (m ++ n)) ((b ++ m) ++ c)
moved_perm b s m n c e = Perm.trans (from_eq (append_assoc b s (m ++ n))) (
    Perm.trans
      (Perm.append_left b (
        Perm.trans (from_eq (sym (append_assoc s m n))) (
          Perm.trans (Perm.append_right n (swap_perm s m))
            (Perm.trans (from_eq (append_assoc m s n)) (Perm.append_left m e)))))
      (from_eq (sym (append_assoc b m c))))

-- Filling the buckets loses no candidate and adds none.
fill_perm :
    (pred : Head → String → Bool) (buckets : Buckets) (candidates : List Head)
    → let (filled, left) = fill_order_buckets pred buckets candidates in
      Perm (marshal filled ++ left) (marshal buckets ++ candidates)
unfolding fill_order_buckets marshal
fill_perm pred [] candidates = Perm.refl candidates
fill_perm pred ((k, b) ∷ rest) candidates =
    let p : Head → Bool = λ h. pred h k in
    let s = select p candidates in
    let n = select (λ h. not (p h)) candidates in
    let (filled, left) = fill_order_buckets pred rest n in
    Perm.trans (from_eq (append_assoc (b ++ s) (marshal filled) left)) (
      Perm.trans (Perm.append_left (b ++ s) (fill_perm pred rest n))
        (moved_perm b s (marshal rest) n candidates (select_perm p candidates)))

marshal-empty_buckets : (names : List String) → marshal (empty_buckets names) ≡ []
unfolding marshal
marshal-empty_buckets [] = refl
marshal-empty_buckets (n ∷ names) = marshal-empty_buckets names

module _ (pf : Platform) where
  open pf use {lib}
  open lib use {pp}

  -- The order has every head of the display as often as the display has it, and no other.
  pub desire_order_perm :
      (order_name_desc : List String) (heads : List (ℕ × Head))
      → Perm (desire_order pf order_name_desc heads) (map (λ e. e.1) heads)
  unfolding desire_order
  desire_order_perm names heads =
      let (exact, left) =
        fill_order_buckets head_matches_name_desc_exact (empty_buckets names)
          (pp.vals_plist heads) in
      let (regex, left') = fill_order_buckets (head_matches_name_desc_regex pf) exact left in
      Perm.trans (fill_perm head_matches_name_desc_fuzzy regex left') (
        Perm.trans (fill_perm (head_matches_name_desc_regex pf) exact left) (
          Perm.trans
            (fill_perm head_matches_name_desc_exact (empty_buckets names) (pp.vals_plist heads))
            (from_eq (
              ap (λ b. b ++ pp.vals_plist heads) (marshal-empty_buckets names)
              ∙ pp.vals_plist_lem heads))))
