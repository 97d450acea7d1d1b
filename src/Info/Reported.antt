-- ===== src/Info/Reported.antt =====
-- When src/info/delta.c reports something.
use Prim.Native.Nat.{ℕ}
use way_displays.Prelude.{
  ◌≡◌, refl, arith, ◌∙◌, sym, Bool, true, false, ◌==◌, eqb_ℤ, ◌&&◌, ◌||◌, not, Option, none, some,
  String, List, [], ◌∷◌, is_some, first, if◌then◌else◌,
}
use way_displays.Platform.{Platform}
use way_displays.Head.{Head}
use way_displays.Head.Changes.{head_current_not_desired}
use way_displays.Info.{Format}
use way_displays.Info.Delta.{
  ◌+++◌, human, disabled_text, scale_text, transform_change, position_change, sprintf_append,
  strip_last, changes_text, head_delta, heads_delta, delta_human,
}

append-Some : (o : Option String) (s : String) → is_some (sprintf_append o s) ≡ true
append-Some none s = refl
append-Some (some d) s = refl

Some_of_if :
    (b : Bool) (x y : Option String)
    → is_some x ≡ true
    → is_some y ≡ true
    → is_some (if b then x else y) ≡ true
Some_of_if true x y p q = p
Some_of_if false x y p q = q

-- Two tests that imply a third.
tests-Some :
    (a b c : Bool) (x y z : Option String)
    → is_some x ≡ true
    → is_some y ≡ true
    → is_some z ≡ true
    → (a ≡ true → c ≡ true)
    → (b ≡ true → c ≡ true)
    → is_some (if a then x else if b then y else if c then z else none) ≡ c
tests-Some true b c x y z p q r f g = p ∙ sym (f refl)
tests-Some false true c x y z p q r f g = q ∙ sym (g refl)
tests-Some false false true x y z p q r f g = r
tests-Some false false false x y z p q r f g = refl

strip-is_some : (o : Option String) → is_some (strip_last o) ≡ is_some o
strip-is_some none = refl
strip-is_some (some d) = refl

disabling :
    (h : Head) → (h.cur.enabled && not h.des.enabled) ≡ true → head_current_not_desired h ≡ true
unfolding head_current_not_desired
disabling h e = ground arith

enabling :
    (h : Head) → (not h.cur.enabled && h.des.enabled) ≡ true → head_current_not_desired h ≡ true
unfolding head_current_not_desired
enabling h e = ground arith

module _ (pf : Platform) (fmt : Format pf.Real) where
  changes-Some : (h : Head) (o : Option String) → is_some (changes_text pf fmt h o) ≡ true
  unfolding changes_text
  changes-Some h o =
      let named = sprintf_append o (human pf fmt h +++ "\n") in
      let scaled =
        if not (eqb_ℤ h.cur.scale h.des.scale) then scale_text pf fmt h named else named in
      let turned =
        if not (h.cur.transform == h.des.transform)
        then transform_change pf fmt h scaled
        else scaled in
      Some_of_if (not (eqb_ℤ h.cur.x h.des.x) || not (eqb_ℤ h.cur.y h.des.y))
        (position_change pf fmt h turned) turned (append-Some turned _)
        (Some_of_if (not (h.cur.transform == h.des.transform)) (transform_change pf fmt h scaled)
          scaled (append-Some scaled _)
          (Some_of_if (not (eqb_ℤ h.cur.scale h.des.scale)) (scale_text pf fmt h named) named
            (append-Some named _) (append-Some o _)))

  head_delta-Some : (h : Head) → is_some (head_delta pf fmt h none) ≡ head_current_not_desired h
  unfolding head_delta
  head_delta-Some h =
      tests-Some (h.cur.enabled && not h.des.enabled) (not h.cur.enabled && h.des.enabled)
        (head_current_not_desired h)
        (sprintf_append none (disabled_text pf fmt h h.disabled_condition_desc))
        (sprintf_append none (human pf fmt h +++ "\n  enabled\n")) (changes_text pf fmt h none) refl
        refl (changes-Some h none) (disabling h) (enabling h)

  next-Some : (h : Head) (d : String) → is_some (head_delta pf fmt h (some d)) ≡ true
  unfolding head_delta
  next-Some h d =
      Some_of_if (h.cur.enabled && not h.des.enabled)
        (sprintf_append (some d) (disabled_text pf fmt h h.disabled_condition_desc))
        (if not h.cur.enabled && h.des.enabled
          then sprintf_append (some d) (human pf fmt h +++ "\n  enabled\n")
          else if head_current_not_desired h
          then changes_text pf fmt h (some d)
          else some d)
        refl
        (Some_of_if (not h.cur.enabled && h.des.enabled)
          (sprintf_append (some d) (human pf fmt h +++ "\n  enabled\n"))
          (if head_current_not_desired h then changes_text pf fmt h (some d) else some d) refl
          (Some_of_if (head_current_not_desired h) (changes_text pf fmt h (some d)) (some d)
            (changes-Some h (some d)) refl))

  heads-Some :
      (heads : List (ℕ × Head)) (o : Option String)
      → is_some o ≡ true
      → is_some (heads_delta pf fmt heads o) ≡ true
  unfolding heads_delta
  heads-Some [] o e = e
  heads-Some ((z, head) ∷ rest) none e = cc
  heads-Some ((z, head) ∷ rest) (some d) e =
      heads-Some rest (head_delta pf fmt head (some d)) (next-Some head d)

  after :
      (rest : List (ℕ × Head)) (b : Bool) (o : Option String) (head : ℕ × Head)
      → is_some o ≡ b
      → is_some (heads_delta pf fmt rest none)
        ≡ is_some (first (λ e. head_current_not_desired e.1) rest)
      → is_some (heads_delta pf fmt rest o)
        ≡ is_some (if b then some head else first (λ e. head_current_not_desired e.1) rest)
  after rest true none head e k = cc
  after rest true (some d) head e k = heads-Some rest (some d) refl
  after rest false none head e k = k
  after rest false (some d) head e k = cc

  heads_report :
      (heads : List (ℕ × Head))
      → is_some (heads_delta pf fmt heads none)
        ≡ is_some (first (λ e. head_current_not_desired e.1) heads)
  unfolding heads_delta
  heads_report [] = refl
  heads_report ((z, head) ∷ rest) =
      after rest (head_current_not_desired head) (head_delta pf fmt head none) (z, head)
        (head_delta-Some head) (heads_report rest)

  -- A change is described to the user exactly where some head needs a change: where none does, there is no
  -- text, and else there is one, whichever of the heads and of their values differ.
  pub delta_human_lem :
      (heads : List (ℕ × Head))
      → is_some (delta_human pf fmt heads)
        ≡ is_some (first (λ e. head_current_not_desired e.1) heads)
  unfolding delta_human
  delta_human_lem heads = strip-is_some (heads_delta pf fmt heads none) ∙ heads_report heads
