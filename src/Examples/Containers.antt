-- ===== src/Examples/Containers.antt =====
-- Sets, lists and pointer sets as lists; a list is sorted by insertion.
use text.Mathlib.Text.{◌==◌ as str_eq}
use text.Mathlib.TextEquality.{eq_iff}
use way_displays.Prelude.{
  ◌≡◌, refl, ◌↔◌, inl, inr, Bool, true, false, none, String, List, [], ◌∷◌, ◌++◌, ◌&&◌, ◌||◌, ◌==◌,
  ==_iff, not, length, if◌then◌else◌, select, first, is_some, In, All, arith, Bool-cases,
}
use way_displays.Collections.{Sets, Lists, PointerSets, Collections, IsLess, Ordered}
use way_displays.Examples.Keyed.{maps}

abbrev contains : List String → String → Bool
contains s a = is_some (first (λ b. str_eq b a) s)

abbrev add : List String → String → List String
add s a = if contains s a then s else s ++ a ∷ []

abbrev add_all : List String → List String → List String
add_all s [] = s
add_all s (a ∷ t) = add (add_all s t) a

contains-append :
    (s : List String) (a b : String) → contains (s ++ a ∷ []) b ≡ (contains s b || str_eq a b)
contains-append [] a b = ground arith
contains-append (c ∷ s) a b = ground (arith, contains-append s a b)

pub add-append : (s : List String) (a : String) → contains s a ≡ false → add s a ≡ s ++ a ∷ []
add-append s a e = rw e refl

pub contains-add :
    (s : List String) (a b : String) → contains (add s a) b ≡ (str_eq a b || contains s b)
contains-add s a b = ground (arith, eq_iff a b, contains-append s a b)

pub contains-add_all :
    (s t : List String) (b : String) → contains (add_all s t) b ≡ (contains t b || contains s b)
contains-add_all s [] b = refl
contains-add_all s (a ∷ t) b =
    ground (arith, contains-add_all s t b, contains-add (add_all s t) a b)

pub contains-remove :
    (s : List String) (a b : String)
    → contains (select (λ c. not (str_eq c a)) s) b ≡ (not (str_eq a b) && contains s b)
contains-remove [] a b = ground arith
contains-remove (c ∷ s) a b =
    ground (arith, contains-remove s a b, eq_iff c a, eq_iff c b, eq_iff a b)

pub contains-remove_in :
    (s t : List String) (b : String)
    → contains (select (λ c. not (contains t c)) s) b ≡ (not (contains t b) && contains s b)
contains-remove_in [] t b = ground arith
contains-remove_in (c ∷ s) t b = ground (arith, contains-remove_in s t b, eq_iff c b)

abbrev equal {ℓ} : {A : Type ℓ} → (A → A → Bool) → List A → List A → Bool
equal same [] [] = true
equal same (a ∷ s) (b ∷ t) = same a b && equal same s t
equal same _ _ = false

abbrev pub sets : Sets
sets = record {
  contains = contains;
  add = add;
  add_all = add_all;
  remove = λ s a. select (λ c. not (str_eq c a)) s;
  remove_in = λ s t. select (λ c. not (contains t c)) s;
  find = first;
  size = length;
  equal = equal str_eq;
  contains-empty = λ a. refl;
  contains-add = contains-add;
  add-append = add-append;
  contains-remove = contains-remove;
  contains-add_all = contains-add_all;
  contains-remove_in = contains-remove_in;
  find_lem = λ p s. refl;
  size_lem = λ s. refl;
}

module _ {A : Type 0} (less : A → A → Bool) where
  abbrev insert : A → List A → List A
  insert a [] = a ∷ []
  insert a (b ∷ l) = let rest = insert a l in if less b a then b ∷ rest else a ∷ b ∷ l

  abbrev sort : List A → List A
  sort [] = []
  sort (a ∷ l) = insert a (sort l)

  In-insert : (a : A) (l : List A) (c : A) → In c (insert a l) ↔ In c (a ∷ l)
  In-insert a [] c = ground arith
  In-insert a (b ∷ l) c = ground (arith, In-insert a l c)

  pub In-sort : (l : List A) (c : A) → In c (sort l) ↔ In c l
  In-sort [] c = ground arith
  In-sort (a ∷ l) c = ground (arith, In-sort l c, In-insert a (sort l) c)

  module _ (less-IsLess : IsLess less) where
    All-insert : (P : A → Type 0) (a : A) (l : List A) → P a → All P l → All P (insert a l)
    All-insert P a [] p q = (p, tt)
    All-insert P a (b ∷ l) p q = elim (Bool-cases (less b a)) [
      | inl t ↦ rw t (q.0, All-insert P a l p q.1)
      | inr t ↦ rw t (p, q)
    ]

    All-cotrans :
        (a b : A) (l : List A)
        → less b a ≡ false
        → All (λ y. less y b ≡ false) l
        → All (λ y. less y a ≡ false) l
    All-cotrans a b [] e q = tt
    All-cotrans a b (c ∷ l) e q = (less-IsLess.cotrans c b a q.0 e, All-cotrans a b l e q.1)

    Ordered-insert : (a : A) (l : List A) → Ordered less l → Ordered less (insert a l)
    Ordered-insert a [] o = (tt, tt)
    Ordered-insert a (b ∷ l) o = elim (Bool-cases (less b a)) [
      | inl t ↦ rw t (
        All-insert (λ y. less y b ≡ false) a l (less-IsLess.asymm b a t) o.0,
        Ordered-insert a l o.1,
      )
      | inr t ↦ rw t ((t, All-cotrans a b l t o.0), o)
    ]

    pub Ordered-sort : (l : List A) → Ordered less (sort l)
    Ordered-sort [] = tt
    Ordered-sort (a ∷ l) = Ordered-insert a (sort l) (Ordered-sort l)

abbrev pub lists : Lists
lists = record {
  sort = sort;
  find = first;
  In-sort = λ less l a. In-sort less l a;
  Ordered-sort = λ less l o. Ordered-sort less o l;
  find_lem = λ p l. refl;
}

abbrev add_new : {A : Type 0} → (A → A → Bool) → List A → A → List A
add_new same l a = if is_some (first (λ b. same a b) l) then l else l ++ a ∷ []

pub add_new-append :
    {A : Type 0} (same : A → A → Bool) (l : List A) (a : A)
    → first (λ b. same a b) l ≡ none
    → add_new same l a ≡ l ++ a ∷ []
add_new-append same l a e = rw e refl

abbrev pub pointer_sets : PointerSets
pointer_sets = record {
  find = first;
  size = length;
  equal = equal;
  add = add_new;
  add-append = add_new-append;
  add_present = λ same l a b e. rw e refl;
  remove = λ same l a. select (λ b. not (same a b)) l;
  find_lem = λ p l. refl;
  size_lem = λ l. refl;
}

abbrev pub containers : Collections
containers = record {
  pp = maps ◌==◌ ==_iff;
  ip = maps ◌==◌ ==_iff;
  sp = maps str_eq eq_iff;
  ss = sets;
  ps = pointer_sets;
  pl = lists;
}
