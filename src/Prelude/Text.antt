-- ===== src/Prelude/Text.antt =====
-- The C library's string functions that the program calls, over native strings: a string is a
-- NUL-free text, and the code points of an ASCII text are its bytes.
use Prim.Native.Char.{code}
use way_displays.Prelude.{
  ℕ, ◌+◌, Bool, true, false, ◌&&◌, ◌||◌, List, [], ◌∷◌, leb, ◌==◌, if◌then◌else◌, String, length,
  ◌≡◌, refl, arith,
}

abbrev pub codes : String → List ℕ
codes String.[] = []
codes (String.◌∷◌ c s) = code c ∷ codes s

-- `tolower` of the C locale.
abbrev pub to_lower : ℕ → ℕ
to_lower c = if leb b'A' c && leb c b'Z' then c + 32 else c

-- Whether the second list of codes begins with the first, letters compared without case.
abbrev pub prefix_case : List ℕ → List ℕ → Bool
prefix_case [] s = true
prefix_case (c ∷ cs) [] = false
prefix_case (c ∷ cs) (d ∷ ds) = to_lower c == to_lower d && prefix_case cs ds

abbrev pub occurs_case : List ℕ → List ℕ → Bool
occurs_case [] n = prefix_case n []
occurs_case (c ∷ cs) n = prefix_case n (c ∷ cs) || occurs_case cs n

-- `strcasestr(haystack, needle) != NULL`.
unfoldable pub strcasestr : String → String → Bool
strcasestr haystack needle = occurs_case (codes haystack) (codes needle)

-- `strlen`.
unfoldable pub strlen : String → ℕ
strlen s = length (codes s)

abbrev pub same_case : List ℕ → List ℕ → Bool
same_case [] [] = true
same_case (c ∷ cs) (d ∷ ds) = to_lower c == to_lower d && same_case cs ds
same_case _ _ = false

-- `strcasecmp(a, b) == 0`.
unfoldable pub strcasecmp : String → String → Bool
strcasecmp a b = same_case (codes a) (codes b)

-- `strcasestr(haystack, needle) == haystack`: the first occurrence is at the start.
unfoldable pub starts_with_case : String → String → Bool
starts_with_case haystack needle = prefix_case (codes needle) (codes haystack)

same_case_refl : (s : List ℕ) → same_case s s ≡ true
same_case_refl [] = refl
same_case_refl (c ∷ cs) = ground (arith, same_case_refl cs)

pub strcasecmp_refl : (s : String) → strcasecmp s s ≡ true
unfolding strcasecmp
strcasecmp_refl s = same_case_refl (codes s)

-- The text of one string behind that of another, as `sprintf_append` makes it.
abbrev pub append : String → String → String
append String.[] t = t
append (String.◌∷◌ c s) t = String.◌∷◌ c (append s t)

prefix_case_refl : (s : List ℕ) → prefix_case s s ≡ true
prefix_case_refl [] = refl
prefix_case_refl (c ∷ cs) = ground (arith, prefix_case_refl cs)

pub starts_with_case_refl : (s : String) → starts_with_case s s ≡ true
unfolding starts_with_case
starts_with_case_refl s = prefix_case_refl (codes s)
