-- ===== src/Collections/Collected.antt =====
-- A loop that puts entries into a map one after another leaves the map empty only where it has none.
use mathlib.Core.Bool.{false≢true}
use way_displays.Prelude.{
  ◌==◌, ◌≡◌, sym, ap, subst, ◌∙◌, inl, inr, Bool, true, false, List, [], ◌∷◌, In, is_some, arith,
}
use way_displays.Collections.{Maps}

module _ {K : Type 0} {eq : K → K → Bool} (maps : Maps eq) (eq_refl : (k : K) → eq k k ≡ true)
    {V : Type 0} where
  unfoldable pub put_each : List (K × V) → List (K × V) → List (K × V)
  put_each acc [] = acc
  put_each acc ((k, v) ∷ l) = put_each (maps.put acc k v) l

  put_each-kept :
      (l acc : List (K × V)) (k : K)
      → is_some (maps.get acc k) ≡ true
      → is_some (maps.get (put_each acc l) k) ≡ true
  unfolding put_each
  put_each-kept [] acc k e = e
  put_each-kept ((j, v) ∷ l) acc k e =
      put_each-kept l (maps.put acc j v) k (ground (arith, e, maps.get-put acc j k v))

  put_each-found :
      (l acc : List (K × V)) (e : K × V) → In e l → is_some (maps.get (put_each acc l) e.0) ≡ true
  unfolding put_each
  put_each-found [] acc e i = absurd i
  put_each-found (x ∷ l) acc e (inl q) =
      subst (λ (y : K × V). is_some (maps.get (put_each (maps.put acc x.0 x.1) l) y.0) ≡ true) q
        (put_each-kept l (maps.put acc x.0 x.1) x.0
          (rw (maps.get-put acc x.0 x.0 x.1, eq_refl x.0)))
  put_each-found (x ∷ l) acc e (inr i) = put_each-found l (maps.put acc x.0 x.1) e i

  size-found :
      (m : List (K × V)) (k : K) → is_some (maps.get m k) ≡ true → (maps.size m == 0) ≡ false
  size-found [] k e = absurd (false≢true (sym (ap is_some (maps.get_lem [] k)) ∙ e))
  size-found (x ∷ m) k e = ground (arith, maps.size_lem (x ∷ m))

  pub size-put_each :
      (l : List (K × V)) (e : K × V) → In e l → (maps.size (put_each [] l) == 0) ≡ false
  size-put_each l e i = size-found (put_each [] l) e.0 (put_each-found l [] e i)
