-- ===== src/Info/Shell.antt =====
-- What reads a command that src/info/print.c prints when it is typed: the shell, which splits the text into
-- words, and `getopt_long` of the C library, which finds the option. Both are arguments.
use Prim.Native.Char.{code}
use way_displays.Prelude.{
  ℕ, ◌≡◌, refl, ap, ◌∙◌, ◌⊎◌, inl, inr, Bool, true, false, ◌==◌, leb, ◌&&◌, ◌||◌, not, some, none,
  String, List, [], ◌∷◌, map, All,
}
use way_displays.Args.Cli.{CliOption, set}
use way_displays.Info.Commands.{Argument, bare, quoted, Command, Line, args_text, line_text}
use way_displays.Info.Delta.{◌+++◌}

abbrev pub no_quote : String → Bool
no_quote String.[] = true
no_quote (String.◌∷◌ c s) = not (code c == b'\'') && no_quote s

-- A letter, a digit, or one of `._-`.
abbrev pub is_portable : ℕ → Bool
is_portable c =
    (leb b'a' c && leb c b'z')
    || (leb b'A' c && leb c b'Z')
    || (leb b'0' c && leb c b'9')
    || (c == b'.')
    || (c == b'_')
    || (c == b'-')

abbrev pub all_portable : String → Bool
all_portable String.[] = true
all_portable (String.◌∷◌ c s) = is_portable (code c) && all_portable s

abbrev pub is_plain : String → Bool
is_plain String.[] = false
is_plain (String.◌∷◌ c s) = is_portable (code c) && all_portable s

abbrev pub is_option : String → Bool
is_option String.[] = false
is_option (String.◌∷◌ c s) = code c == b'-'

-- A text that reaches a program as it is: in quotes, and as it stands.
abbrev pub QuoteSafe : String → Type 0
QuoteSafe s = (no_quote s ≡ true) × (is_option s ≡ false)

abbrev pub WordSafe : String → Type 0
WordSafe s = (is_plain s ≡ true) × (is_option s ≡ false)

-- The end of a word: of the line, or a blank.
abbrev pub IsEnd : String → Type 0
IsEnd t = (t ≡ "") ⊎ ((u : String) × (t ≡ " " +++ u))

-- The words of a line: those in single quotes are as they are between them, and portable characters
-- stand for themselves.
pub record Shell : Type 0 where
  pub split : String → List String
  pub nothing_left : split "" ≡ []
  pub blank_skipped : (t : String) → split (" " +++ t) ≡ split t
  pub plain_word : (s t : String) → is_plain s ≡ true → IsEnd t → split (s +++ t) ≡ s ∷ split t
  pub quoted_word :
      (s t : String) → no_quote s ≡ true → IsEnd t → split ("'" +++ s +++ "'" +++ t) ≡ s ∷ split t

-- The option `-s` takes the next word; the words behind it are left, none of which is an option.
pub record Getopt : Type 0 where
  pub options : List String → List CliOption
  pub set_option :
      (program element : String) (args : List String)
      → All (λ s. is_option s ≡ false) args
      → options (program ∷ "-s" ∷ element ∷ args) ≡ set element args ∷ []

abbrev word : Argument → String
word (bare s) = s
word (quoted s) = s

abbrev pub words : List Argument → List String
words args = map word args

abbrev pub ArgumentSafe : Argument → Type 0
ArgumentSafe (bare s) = WordSafe s
ArgumentSafe (quoted s) = QuoteSafe s

-- An empty line, or a command whose words are kept.
abbrev pub LineSafe : Line → Type 0
LineSafe none = Unit
LineSafe (some c) =
    (is_plain c.element ≡ true) × All ArgumentSafe c.args × ((c.tail ≡ "") ⊎ (c.tail ≡ " "))

+++_assoc : (a b c : String) → (a +++ b) +++ c ≡ a +++ (b +++ c)
+++_assoc String.[] b c = refl
+++_assoc (String.◌∷◌ x a) b c = ap (λ s. String.◌∷◌ x s) (+++_assoc a b c)

pub words_plain :
    (args : List Argument) → All ArgumentSafe args → All (λ s. is_option s ≡ false) (words args)
words_plain [] h = tt
words_plain (bare s ∷ l) h = (h.0.1, words_plain l h.1)
words_plain (quoted s ∷ l) h = (h.0.1, words_plain l h.1)

tail-IsEnd : (t : String) → (t ≡ "") ⊎ (t ≡ " ") → IsEnd t
tail-IsEnd t (inl e) = inl e
tail-IsEnd t (inr e) = inr ("", e)

args-IsEnd : (args : List Argument) (t : String) → (t ≡ "") ⊎ (t ≡ " ") → IsEnd (args_text args t)
args-IsEnd [] t h = tail-IsEnd t h
args-IsEnd (a ∷ l) t h = inr (_, refl)

module _ (sh : Shell) where
  tail_split : (t : String) → (t ≡ "") ⊎ (t ≡ " ") → sh.split t ≡ []
  tail_split t (inl e) = ap sh.split e ∙ sh.nothing_left
  tail_split t (inr e) = ap sh.split e ∙ sh.blank_skipped "" ∙ sh.nothing_left

  args_split :
      (args : List Argument) (t : String)
      → All ArgumentSafe args
      → (t ≡ "") ⊎ (t ≡ " ")
      → sh.split (args_text args t) ≡ words args
  args_split [] t h e = tail_split t e
  args_split (bare s ∷ l) t h e =
      sh.blank_skipped (s +++ args_text l t)
      ∙ sh.plain_word s (args_text l t) h.0.0 (args-IsEnd l t e)
      ∙ ap (λ m. s ∷ m) (args_split l t h.1 e)
  args_split (quoted s ∷ l) t h e =
      sh.blank_skipped (("'" +++ s +++ "'") +++ args_text l t)
      ∙ ap (λ x. sh.split ("'" +++ x)) (+++_assoc s "'" (args_text l t))
      ∙ sh.quoted_word s (args_text l t) h.0.0 (args-IsEnd l t e)
      ∙ ap (λ m. s ∷ m) (args_split l t h.1 e)

  -- The shell splits the printed text of a command into the words that it was made of.
  pub split-line_text :
      (c : Command)
      → LineSafe (some c)
      → sh.split (line_text (some c)) ≡ "way-displays" ∷ "-s" ∷ c.element ∷ words c.args
  split-line_text c (p, a, e) =
      let rest = args_text c.args c.tail in
      let end = args-IsEnd c.args c.tail e in
      sh.plain_word "way-displays" (" -s " +++ c.element +++ rest) refl (inr (_, refl))
      ∙ ap (λ m. "way-displays" ∷ m)
          (sh.blank_skipped ("-s " +++ c.element +++ rest)
            ∙ sh.plain_word "-s" (" " +++ c.element +++ rest) refl (inr (_, refl))
            ∙ ap (λ m. "-s" ∷ m)
                (sh.blank_skipped (c.element +++ rest)
                  ∙ sh.plain_word c.element rest p end
                  ∙ ap (λ m. c.element ∷ m) (args_split c.args c.tail a e)))
