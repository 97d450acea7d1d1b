-- ===== src/Examples/Keyed.antt =====
-- Maps as lists of entries, by keys whose test `eq` decides their equality.
use way_displays.Prelude.{
  ◌≡◌, refl, ap, ◌↔◌, inl, inr, Bool, true, false, Option, none, some, List, [], ◌∷◌, ◌++◌, map,
  ◌&&◌, not, length, if◌then◌else◌, select, first, is_some, or_else, arith, Bool-cases,
}
use way_displays.Collections.{Maps, value_of, key_of}

module _ {K : Type 0} (eq : K → K → Bool) (eq_iff : (a b : K) → (eq a b ≡ true) ↔ (a ≡ b))
    {V : Type 0} where
  abbrev pub get : List (K × V) → K → Option V
  get m k = value_of (first (λ e. eq e.0 k) m)

  abbrev pub put : List (K × V) → K → V → List (K × V)
  put [] k v = (k, v) ∷ []
  put ((j, w) ∷ m) k v = let rest = put m k v in if eq j k then (k, v) ∷ m else (j, w) ∷ rest

  pub put-append :
      (m : List (K × V)) (k : K) (v : V) → get m k ≡ none → put m k v ≡ m ++ (k, v) ∷ []
  put-append [] k v e = refl
  put-append ((j, w) ∷ m) k v e = elim (Bool-cases (eq j k)) [
    | inl t ↦ absurd (ground (arith, e, t))
    | inr t ↦ rw t (ap (λ l. (j, w) ∷ l) (put-append m k v ((rw t at e))))
  ]

  pub get-put :
      (m : List (K × V)) (k j : K) (v : V)
      → get (put m k v) j ≡ (if eq k j then some v else get m j)
  get-put [] k j v = ground arith
  get-put ((i, w) ∷ m) k j v = ground (arith, get-put m k j v, eq_iff i k, eq_iff i j, eq_iff k j)

  abbrev pub remove : List (K × V) → K → List (K × V)
  remove m k = select (λ e. not (eq e.0 k)) m

  pub get-remove :
      (m : List (K × V)) (k j : K) → get (remove m k) j ≡ (if eq k j then none else get m j)
  get-remove [] k j = ground arith
  get-remove ((i, w) ∷ m) k j = ground (arith, get-remove m k j, eq_iff i k, eq_iff i j, eq_iff k j)

  abbrev pub put_all : List (K × V) → List (K × V) → List (K × V)
  put_all m [] = m
  put_all m ((k, v) ∷ n) = put (put_all m n) k v

  pub get-put_all : (m n : List (K × V)) (j : K) → get (put_all m n) j ≡ or_else (get n j) (get m j)
  get-put_all m [] j = refl
  get-put_all m ((k, v) ∷ n) j = ground (arith, get-put_all m n j, get-put (put_all m n) k j v)

  abbrev pub put_if_absent : List (K × V) → K → V → List (K × V)
  put_if_absent m k v = if is_some (get m k) then m else put m k v

  pub put_if_absent_lem :
      (m : List (K × V)) (k : K) (v : V) → get m k ≡ none → put_if_absent m k v ≡ put m k v
  put_if_absent_lem m k v e = rw e refl

  pub get-put_if_absent :
      (m : List (K × V)) (k j : K) (v : V)
      → get (put_if_absent m k v) j ≡ (if eq k j then or_else (get m k) (some v) else get m j)
  get-put_if_absent m k j v = ground (arith, get-put m k j v, eq_iff k j)

  abbrev pub remove_in : List (K × V) → List (K × V) → List (K × V)
  remove_in m n = select (λ e. not (is_some (get n e.0))) m

  pub get-remove_in :
      (m n : List (K × V)) (k : K)
      → get (remove_in m n) k ≡ (if is_some (get n k) then none else get m k)
  get-remove_in [] n k = ground arith
  get-remove_in ((i, w) ∷ m) n k = ground (arith, get-remove_in m n k, eq_iff i k)

  abbrev pub equal : (V → V → Bool) → List (K × V) → List (K × V) → Bool
  equal same [] [] = true
  equal same ((k, v) ∷ m) ((j, w) ∷ n) = eq k j && same v w && equal same m n
  equal same _ _ = false

-- All of them.
abbrev pub maps :
    {K : Type 0} (eq : K → K → Bool) → ((a b : K) → (eq a b ≡ true) ↔ (a ≡ b)) → Maps eq
maps eq eq_iff = record {
  get = get eq eq_iff;
  put = put eq eq_iff;
  put_all = put_all eq eq_iff;
  put_if_absent = put_if_absent eq eq_iff;
  remove = remove eq eq_iff;
  remove_in = remove_in eq eq_iff;
  find = first;
  filter_it = select;
  first_key = λ same m v. key_of (first (λ e. same e.1 v) m);
  size = length;
  vals_plist = map (λ e. e.1);
  equal = equal eq eq_iff;
  put-append = put-append eq eq_iff;
  get-put = get-put eq eq_iff;
  get-remove = get-remove eq eq_iff;
  remove_lem = λ m k. refl;
  find_lem = λ p m. refl;
  filter_it_lem = λ p m. refl;
  size_lem = λ m. refl;
  get-put_all = get-put_all eq eq_iff;
  put_if_absent_lem = put_if_absent_lem eq eq_iff;
  get-put_if_absent = get-put_if_absent eq eq_iff;
  get-remove_in = get-remove_in eq eq_iff;
  vals_plist_lem = λ m. refl;
  get_lem = λ m k. refl;
  first_key_lem = λ same m v. refl;
}
