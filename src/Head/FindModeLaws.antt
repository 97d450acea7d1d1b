-- ===== src/Head/FindModeLaws.antt =====
-- What `head_find_mode` of src/head.c finds for a head that has modes.
use mathlib.Core.Option.{some-injective}
use way_displays.Prelude.{
  ℕ, ◌==◌, ==_iff, ◌≡◌, refl, sym, ap, subst, ◌∙◌, ◌⊎◌, inl, inr, Bool, true, false, Option, none,
  some, String, List, [], ◌∷◌, In, first, first-In, first_passes, first_finds, arith, Option-cases,
  if◌then◌else◌,
}
use way_displays.Collections.{value_of, key_of}
use way_displays.Platform.{Platform}
use way_displays.Mode.{Mode, mode_same, mode_best_satisfying, mode_max_refresh, mode_max}
use way_displays.Mode.Best.{
  values, meets, best_satisfying_sound, best_satisfying_complete, max_refresh_lem,
}
use way_displays.Mode.Max.{max_lem}
use way_displays.Cfg.{Cfg}
use way_displays.Head.{Head}
use way_displays.Head.FindMode.{user_mode, user_choice, preferred, choice, head_find_mode}

-- Neither a key nor a mode stands in two entries.
abbrev pub IsUnique : List (ℕ × Mode) → Type 0
IsUnique modes =
    (e f : ℕ × Mode) → In e modes → In f modes → (e.0 ≡ f.0) ⊎ (e.1.addr ≡ f.1.addr) → e ≡ f

In-values : (modes : List (ℕ × Mode)) (e : ℕ × Mode) → In e modes → In e.1 (values modes)
In-values [] e i = absurd i
In-values (x ∷ xs) e (inl p) = inl (ap (λ (y : ℕ × Mode). y.1) p)
In-values (x ∷ xs) e (inr i) = inr (In-values xs e i)

entry_of : (modes : List (ℕ × Mode)) (c : Mode) → In c (values modes) → (k : ℕ) × In (k, c) modes
entry_of [] c i = absurd i
entry_of ((k, m) ∷ xs) c (inl p) = (k, inl (ap (λ y. (k, y)) p))
entry_of (x ∷ xs) c (inr i) = let (k, j) = entry_of xs c i in (k, inr j)

module _ (pf : Platform) where
  open pf use {lib, Real}
  open lib use {pp}

  get-In :
      (modes : List (ℕ × Mode)) (z : ℕ) (c : Mode) → pp.get modes z ≡ some c → In c (values modes)
  get-In modes z c h = elim (Option-cases (first (λ e. e.0 == z) modes)) [
    | inl none_there ↦
        absurd (let e = sym (pp.get_lem modes z) ∙ h in let e' = rw none_there at e in cc)
    | inr (e, found) ↦
        let q = sym (pp.get_lem modes z) ∙ h in
        let q' = rw found at q in
        subst (λ m. In m (values modes)) (ground arith)
          (In-values modes e (first-In _ modes e found))
  ]

  -- The key that `ppmap_first_key` answers is that of the entry, and its value is the mode.
  first_key_lem :
      (modes : List (ℕ × Mode)) (c : Mode)
      → IsUnique modes
      → In c (values modes)
      → (z : ℕ) × (pp.first_key mode_same modes c ≡ some z) × (pp.get modes z ≡ some c)
  first_key_lem modes c u i =
      let (k, j) = entry_of modes c i in
      let (e, found) = first_finds (λ x. mode_same x.1 c) modes (k, c) j ((==_iff _ _).1 refl) in
      let same = (==_iff _ _).0 (first_passes (λ x. mode_same x.1 c) modes e found) in
      let e_is = u e (k, c) (first-In _ modes e found) j (inr same) in
      let (g, got) = first_finds (λ x. x.0 == k) modes (k, c) j ((==_iff _ _).1 refl) in
      let at = (==_iff _ _).0 (first_passes (λ x. x.0 == k) modes g got) in
      let g_is = u g (k, c) (first-In _ modes g got) j (inl at) in
      (
        k,
        pp.first_key_lem mode_same modes c ∙ ap key_of found ∙ ap (λ x. key_of (some x)) e_is,
        pp.get_lem modes k ∙ ap value_of got ∙ ap (λ x. value_of (some x)) g_is,
      )

  user_choice-In :
      (u : Option (String × Mode)) (p : Option Mode) (modes : List (ℕ × Mode)) (c : Mode)
      → user_choice pf u p modes ≡ some c
      → In c (values modes)
  unfolding user_choice mode_max_refresh
  user_choice-In none p modes c h = cc
  user_choice-In (some (k, t)) p modes c h =
      elim (Option-cases (mode_best_satisfying lib (some t) modes)) [
        | inl e ↦ by_refresh p (t.max_preferred_refresh) (rw e at h)
        | inr (r, e) ↦ let q = rw e at h in (best_satisfying_sound lib modes t c (e ∙ q)).0
      ]
    where
      by_refresh :
          (p : Option Mode) (b : Bool)
          → (if b then mode_max_refresh lib p modes else none) ≡ some c
          → In c (values modes)
      by_refresh none true h = cc
      by_refresh (some q) true h = (max_refresh_lem lib modes q c h).0
      by_refresh p false h = cc

  preferred-In : (head : Head) (c : Mode) → preferred pf head ≡ some c → In c (values head.modes)
  preferred-In head c h = elim (Option-cases head.zmode_pref) [
    | inl e ↦ absurd (ground arith)
    | inr (z, e) ↦ get-In head.modes z c (ground arith)
  ]

  -- The choice is made in the order: configured, preferred, maximum.
  choice-In :
      (cfg : Cfg Real) (head : Head) (k : ℕ) (m : Mode) (rest : List (ℕ × Mode))
      → head.modes ≡ (k, m) ∷ rest
      → (c : Mode) × (choice pf cfg head ≡ some c) × In c (values head.modes)
  unfolding choice
  choice-In cfg head k m rest h =
      elim (Option-cases (user_choice pf (user_mode pf cfg head) (preferred pf head) head.modes)) [
        | inr (c, e) ↦ (c, rw e, user_choice-In _ _ head.modes c e)
        | inl e ↦ elim (Option-cases (preferred pf head)) [
          | inr (c, f) ↦ (c, rw (e, f), preferred-In head c f)
          | inl f ↦
              let (c, g, i, _) = max_lem k m rest in
              (
                c,
                rw (e, f) (subst (λ ms. mode_max ms ≡ some c) (sym h) g),
                subst (λ ms. In c (values ms)) (sym h) i,
              )
        ]
      ]

  -- A head with modes always gets one of them: the key that `head_find_mode` answers is that of the
  -- mode chosen.
  pub find_mode_total :
      (cfg : Cfg Real) (head : Head) (k : ℕ) (m : Mode) (rest : List (ℕ × Mode))
      → head.modes ≡ (k, m) ∷ rest
      → IsUnique head.modes
      → (z : ℕ) × (c : Mode) × ((head_find_mode pf cfg head).zmode ≡ some z)
        × (pp.get head.modes z ≡ some c)
        × (choice pf cfg head ≡ some c)
  unfolding head_find_mode
  find_mode_total cfg head k m rest h u =
      let (c, e, i) = choice-In cfg head k m rest h in
      let (z, f, g) = first_key_lem head.modes c u i in
      let some_modes : (pp.size head.modes == 0) ≡ false =
        rw h (ground (arith, pp.size_lem ((k, m) ∷ rest))) in
      (z, c, rw some_modes (rw e f), g, e)

  -- Where some mode of the head satisfies the mode configured for it, so does the mode chosen.
  pub choice_user :
      (cfg : Cfg Real) (head : Head) (c : Mode) (key : String) (t n : Mode)
      → choice pf cfg head ≡ some c
      → user_mode pf cfg head ≡ some (key, t)
      → In n (values head.modes)
      → meets t n ≡ true
      → meets t c ≡ true
  unfolding choice user_choice
  choice_user cfg head c key t n h e i ok =
      let (r, f) = best_satisfying_complete lib head.modes t n i ok in
      let q : some r ≡ some c = rw (e, f) at h in
      subst (λ x. meets t x ≡ true) (some-injective _ _ q)
        (best_satisfying_sound lib head.modes t r f).1
