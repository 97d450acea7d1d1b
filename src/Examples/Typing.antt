-- ===== src/Examples/Typing.antt =====
-- A shell and `getopt_long`, as far as the commands of src/info/print.c go: words in single quotes, and
-- words that stand for themselves.
use Prim.Native.Char.{code}
use Prim.Native.Nat.{ℕ}
use way_displays.Prelude.{
  ◌≡◌, refl, sym, ap, ◌∙◌, ◌⊎◌, inl, inr, Bool, true, false, ◌==◌, ◌&&◌, not, String, List, [], ◌∷◌,
  Bool-cases, arith, All, if◌then◌else◌,
}
use mathlib.Core.Bool.{false≢true}
use text.Mathlib.Text.{◌==◌ as str_eq}
use way_displays.Prelude.Text.{append}
use way_displays.Info.Shell.{
  Shell, Getopt, IsEnd, is_plain, is_portable, all_portable, no_quote, is_option,
}
use way_displays.Args.Cli.{CliOption, set}

-- Between words, in a word that is so far the text, and in quotes inside of that.
pub data Place : Type 0 where
  between : Place
  in_word in_quotes : String → Place

pub data Kind : Type 0 where
  blank quote other : Kind

abbrev kind : ℕ → Kind
kind c = if c == 32 then blank else if c == 39 then quote else other

unfoldable pub scan : Place → String → List String
scan between String.[] = []
scan (in_word w) String.[] = w ∷ []
scan (in_quotes w) String.[] = w ∷ []
scan between (String.◌∷◌ c s) = elim (kind (code c)) [
  | blank ↦ scan between s
  | quote ↦ scan (in_quotes "") s
  | other ↦ scan (in_word (String.◌∷◌ c "")) s
]
scan (in_word w) (String.◌∷◌ c s) = elim (kind (code c)) [
  | blank ↦ w ∷ scan between s
  | quote ↦ scan (in_quotes w) s
  | other ↦ scan (in_word (append w (String.◌∷◌ c ""))) s
]
scan (in_quotes w) (String.◌∷◌ c s) = elim (kind (code c)) [
  | quote ↦ scan (in_word w) s
  | _ ↦ scan (in_quotes (append w (String.◌∷◌ c ""))) s
]

pub nothing : scan between "" ≡ []
unfolding scan
nothing = refl

pub skipped : (t : String) → scan between (append " " t) ≡ scan between t
unfolding scan
skipped t = refl

both_true : (a b : Bool) → (a && b) ≡ true → (a ≡ true) × (b ≡ true)
both_true a b h = ground arith

append_assoc : (a b c : String) → append (append a b) c ≡ append a (append b c)
append_assoc String.[] b c = refl
append_assoc (String.◌∷◌ x a) b c = ap (λ s. String.◌∷◌ x s) (append_assoc a b c)

append-nil : (a : String) → append a "" ≡ a
append-nil String.[] = refl
append-nil (String.◌∷◌ x a) = ap (λ s. String.◌∷◌ x s) (append-nil a)

portable-kind : (c : ℕ) → is_portable c ≡ true → kind c ≡ other
portable-kind c h = ground arith

scan_word :
    (s t w : String)
    → all_portable s ≡ true
    → scan (in_word w) (append s t) ≡ scan (in_word (append w s)) t
unfolding scan
scan_word String.[] t w h = ap (λ v. scan (in_word v) t) (sym (append-nil w))
scan_word (String.◌∷◌ c s) t w h =
    let (first, rest) = both_true (is_portable (code c)) (all_portable s) h in
    rw (portable-kind (code c) first, scan)
      (scan_word s t (append w (String.◌∷◌ c "")) rest
        ∙ ap (λ v. scan (in_word v) t) (append_assoc w (String.◌∷◌ c "") s))

unquoted-kind : (c : ℕ) → not (c == 39) ≡ true → (kind c ≡ blank) ⊎ (kind c ≡ other)
unquoted-kind c h = elim (Bool-cases (c == 32)) [
  | inl e ↦ inl (ground arith)
  | inr e ↦ inr (ground arith)
]

scan_quotes :
    (s t w : String)
    → no_quote s ≡ true
    → scan (in_quotes w) (append s (append "'" t)) ≡ scan (in_word (append w s)) t
unfolding scan
scan_quotes String.[] t w h = ap (λ v. scan (in_word v) t) (sym (append-nil w))
scan_quotes (String.◌∷◌ c s) t w h =
    let (first, rest) = both_true (not (code c == 39)) (no_quote s) h in
    let more =
      scan_quotes s t (append w (String.◌∷◌ c "")) rest
      ∙ ap (λ v. scan (in_word v) t) (append_assoc w (String.◌∷◌ c "") s) in
    elim (unquoted-kind (code c) first) [ inl e ↦ rw (e, scan) more | inr e ↦ rw (e, scan) more ]

scan_end : (t w : String) → IsEnd t → scan (in_word w) t ≡ w ∷ scan between t
unfolding scan
scan_end t w (inl e) = rw e refl
scan_end t w (inr (u, e)) = rw e refl

pub plain :
    (s t : String) → is_plain s ≡ true → IsEnd t → scan between (append s t) ≡ s ∷ scan between t
unfolding scan
plain String.[] t h e = absurd (false≢true h)
plain (String.◌∷◌ c s) t h e =
    let (first, rest) = both_true (is_portable (code c)) (all_portable s) h in
    rw (portable-kind (code c) first, scan)
      (scan_word s t (String.◌∷◌ c "") rest ∙ scan_end t (String.◌∷◌ c s) e)

pub in_single :
    (s t : String)
    → no_quote s ≡ true
    → IsEnd t
    → scan between (append "'" (append s (append "'" t))) ≡ s ∷ scan between t
unfolding scan
in_single s t h e = scan_quotes s t "" h ∙ scan_end t s e

abbrev pub shell : Shell
shell = record {
  split = scan between;
  nothing_left = nothing;
  blank_skipped = skipped;
  plain_word = plain;
  quoted_word = in_single;
}

unfoldable pub options : List String → List CliOption
options (program ∷ option ∷ element ∷ args) =
    if str_eq option "-s" then set element args ∷ [] else []
options _ = []

pub found :
    (program element : String) (args : List String)
    → All (λ s. is_option s ≡ false) args
    → options (program ∷ "-s" ∷ element ∷ args) ≡ set element args ∷ []
unfolding options
found program element args h = refl

abbrev pub getopt : Getopt
getopt = record { options = options; set_option = found }
