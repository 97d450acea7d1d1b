-- ===== src/Desire/Order.antt =====
-- `desire_order` of src/desire.c: the heads in the order of the configuration, in buckets, one for each
-- NAME_DESC. The heads move from the candidates to the first bucket that takes them.
use way_displays.Prelude.{ℕ, Bool, not, String, List, [], ◌∷◌, ◌++◌, map, select}
use way_displays.Platform.{Platform}
use way_displays.Head.{Head}
use way_displays.Head.Matching.{
  head_matches_name_desc_exact, head_matches_name_desc_regex, head_matches_name_desc_fuzzy,
}

abbrev pub Buckets : Type 0
Buckets = List (String × List Head)

-- The inner loop: a candidate that matches is appended to the bucket and removed, as the iterator
-- passes it.
unfoldable pub fill_order_buckets :
    (Head → String → Bool) → Buckets → List Head → Buckets × List Head
fill_order_buckets pred [] candidates = ([], candidates)
fill_order_buckets pred ((k, b) ∷ rest) candidates =
    let (filled, left) = fill_order_buckets pred rest (select (λ h. not (pred h k)) candidates) in
    ((k, b ++ select (λ h. pred h k) candidates) ∷ filled, left)

-- The buckets one after another.
unfoldable pub marshal : Buckets → List Head
marshal [] = []
marshal ((k, b) ∷ rest) = b ++ marshal rest

-- The names of a set are distinct, so each gets an empty bucket of its own.
abbrev pub empty_buckets : List String → Buckets
empty_buckets = map (λ name_desc. (name_desc, []))

module _ (pf : Platform) where
  open pf use {lib}
  open lib use {pp}

  unfoldable pub desire_order : List String → List (ℕ × Head) → List Head
  unfolding fill_order_buckets marshal
  desire_order order_name_desc heads =
      let (exact, left) =
        fill_order_buckets head_matches_name_desc_exact (empty_buckets order_name_desc)
          (pp.vals_plist heads) in
      let (regex, left') = fill_order_buckets (head_matches_name_desc_regex pf) exact left in
      let (fuzzy, remainder) = fill_order_buckets head_matches_name_desc_fuzzy regex left' in
      marshal fuzzy ++ remainder
