-- ===== src/Collections.antt =====
-- The containers of the library under lib/alex-c, which is a copy of another project: the program
-- calls it, and it is a parameter here. A container is given by its contents, the entries in
-- insertion order, which is the order in which its iterators visit them. The operations are the
-- fields of a record, and the laws are what the library's headers document of them.
pub mod Sorted
pub mod Collected
use text.Mathlib.Text.{◌==◌ as str_eq}
use way_displays.Prelude.{
  ℕ, ◌≡◌, ◌↔◌, Bool, true, false, Option, none, some, String, List, [], ◌∷◌, ◌++◌, map, ◌==◌, ◌&&◌,
  ◌||◌, not, length, if◌then◌else◌, select, first, In, All, is_some, or_else,
}

abbrev pub value_of : {K V : Type 0} → Option (K × V) → Option V
value_of none = none
value_of (some (k, v)) = some v

abbrev pub key_of : {K V : Type 0} → Option (K × V) → Option K
key_of none = none
key_of (some (k, v)) = some k

-- lib/alex-c/inc/ppmap.h, ipmap.h, spmap.h and simap.h, for keys that `eq` compares.
pub record Maps {K : Type 0} (eq : K → K → Bool) : Type 1 where
  pub get : {V : Type 0} → List (K × V) → K → Option V
  pub put : {V : Type 0} → List (K × V) → K → V → List (K × V)
  pub put_all : {V : Type 0} → List (K × V) → List (K × V) → List (K × V)
  pub put_if_absent : {V : Type 0} → List (K × V) → K → V → List (K × V)
  pub remove : {V : Type 0} → List (K × V) → K → List (K × V)
  pub remove_in : {V : Type 0} → List (K × V) → List (K × V) → List (K × V)
  pub find : {V : Type 0} → (K × V → Bool) → List (K × V) → Option (K × V)
  pub filter_it : {V : Type 0} → (K × V → Bool) → List (K × V) → List (K × V)
  pub first_key : {V : Type 0} → (V → V → Bool) → List (K × V) → V → Option K
  pub size : {V : Type 0} → List (K × V) → ℕ
  pub vals_plist : {V : Type 0} → List (K × V) → List V
  pub equal : {V : Type 0} → (V → V → Bool) → List (K × V) → List (K × V) → Bool
  -- A key that is not present is appended.
  pub put-append :
      {V : Type 0} (m : List (K × V)) (k : K) (v : V)
      → get m k ≡ none
      → put m k v ≡ m ++ (k, v) ∷ []
  pub get-put :
      {V : Type 0} (m : List (K × V)) (k j : K) (v : V)
      → get (put m k v) j ≡ (if eq k j then some v else get m j)
  pub get-remove :
      {V : Type 0} (m : List (K × V)) (k j : K)
      → get (remove m k) j ≡ (if eq k j then none else get m j)
  -- What is not removed stays in its order.
  pub remove_lem :
      {V : Type 0} (m : List (K × V)) (k : K) → remove m k ≡ select (λ e. not (eq e.0 k)) m
  pub find_lem : {V : Type 0} (p : K × V → Bool) (m : List (K × V)) → find p m ≡ first p m
  pub filter_it_lem :
      {V : Type 0} (p : K × V → Bool) (m : List (K × V)) → filter_it p m ≡ select p m
  pub size_lem : {V : Type 0} (m : List (K × V)) → size m ≡ length m
  pub get-put_all :
      {V : Type 0} (m n : List (K × V)) (k : K) → get (put_all m n) k ≡ or_else (get n k) (get m k)
  pub put_if_absent_lem :
      {V : Type 0} (m : List (K × V)) (k : K) (v : V)
      → get m k ≡ none
      → put_if_absent m k v ≡ put m k v
  pub get-put_if_absent :
      {V : Type 0} (m : List (K × V)) (k j : K) (v : V)
      → get (put_if_absent m k v) j ≡ (if eq k j then or_else (get m k) (some v) else get m j)
  pub get-remove_in :
      {V : Type 0} (m n : List (K × V)) (k : K)
      → get (remove_in m n) k ≡ (if is_some (get n k) then none else get m k)
  pub vals_plist_lem : {V : Type 0} (m : List (K × V)) → vals_plist m ≡ map (λ e. e.1) m
  -- The value of the first entry with the key.
  pub get_lem :
      {V : Type 0} (m : List (K × V)) (k : K) → get m k ≡ value_of (first (λ e. eq e.0 k) m)
  pub first_key_lem :
      {V : Type 0} (same : V → V → Bool) (m : List (K × V)) (v : V)
      → first_key same m v ≡ key_of (first (λ e. same e.1 v) m)

-- lib/alex-c/inc/sset.h: sets of strings, compared by strcmp.
pub record Sets : Type 0 where
  pub contains : List String → String → Bool
  pub add : List String → String → List String
  pub add_all : List String → List String → List String
  pub remove : List String → String → List String
  pub remove_in : List String → List String → List String
  pub find : (String → Bool) → List String → Option String
  pub size : List String → ℕ
  pub equal : List String → List String → Bool
  pub contains-empty : (a : String) → contains [] a ≡ false
  pub contains-add :
      (s : List String) (a b : String) → contains (add s a) b ≡ (str_eq a b || contains s b)
  -- What is not contained is appended.
  pub add-append : (s : List String) (a : String) → contains s a ≡ false → add s a ≡ s ++ a ∷ []
  pub contains-remove :
      (s : List String) (a b : String)
      → contains (remove s a) b ≡ (not (str_eq a b) && contains s b)
  pub contains-add_all :
      (s t : List String) (b : String) → contains (add_all s t) b ≡ (contains t b || contains s b)
  pub contains-remove_in :
      (s t : List String) (b : String)
      → contains (remove_in s t) b ≡ (not (contains t b) && contains s b)
  pub find_lem : (p : String → Bool) (s : List String) → find p s ≡ first p s
  pub size_lem : (s : List String) → size s ≡ length s

-- A test that can order a list: it is asymmetric, and its failure is transitive.
pub record IsLess {A : Type 0} (less : A → A → Bool) : Type 0 where
  pub asymm : (a b : A) → less a b ≡ true → less b a ≡ false
  pub cotrans : (a b c : A) → less a b ≡ false → less b c ≡ false → less a c ≡ false

-- Nothing stands behind an entry that it should precede.
abbrev pub Ordered : {A : Type 0} → (A → A → Bool) → List A → Type 0
Ordered less [] = Unit
Ordered less (x ∷ xs) = All (λ y. less y x ≡ false) xs × Ordered less xs

-- lib/alex-c/inc/plist.h.
pub record Lists : Type 1 where
  pub sort : {A : Type 0} → (A → A → Bool) → List A → List A
  pub find : {A : Type 0} → (A → Bool) → List A → Option A
  pub In-sort :
      {A : Type 0} (less : A → A → Bool) (l : List A) (a : A) → In a (sort less l) ↔ In a l
  pub Ordered-sort :
      {A : Type 0} (less : A → A → Bool) (l : List A) → IsLess less → Ordered less (sort less l)
  pub find_lem : {A : Type 0} (p : A → Bool) (l : List A) → find p l ≡ first p l

-- lib/alex-c/inc/pset.h: sets of pointers, given by what they point to.
pub record PointerSets : Type 1 where
  pub find : {A : Type 0} → (A → Bool) → List A → Option A
  pub size : {A : Type 0} → List A → ℕ
  pub equal : {A : Type 0} → (A → A → Bool) → List A → List A → Bool
  pub add : {A : Type 0} → (A → A → Bool) → List A → A → List A
  pub remove : {A : Type 0} → (A → A → Bool) → List A → A → List A
  pub add-append :
      {A : Type 0} (same : A → A → Bool) (l : List A) (a : A)
      → first (λ b. same a b) l ≡ none
      → add same l a ≡ l ++ a ∷ []
  -- What is there is not added again.
  pub add_present :
      {A : Type 0} (same : A → A → Bool) (l : List A) (a b : A)
      → first (λ b. same a b) l ≡ some b
      → add same l a ≡ l
  pub find_lem : {A : Type 0} (p : A → Bool) (l : List A) → find p l ≡ first p l
  pub size_lem : {A : Type 0} (l : List A) → size l ≡ length l

-- The containers that the program uses: by pointer, by number, by string, sets of strings and lists.
pub record Collections : Type 1 where
  pub pp : Maps ◌==◌
  pub ip : Maps ◌==◌
  pub sp : Maps str_eq
  pub ss : Sets
  pub ps : PointerSets
  pub pl : Lists
