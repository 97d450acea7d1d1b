-- ===== src/Args.antt =====
-- src/args.c and src/cli.c: the command line. What `getopt_long` of the C library leaves to be read is
-- `argv[optind]` up to `argv[argc - 1]`, a list; `argv[argc]` is NULL.
pub mod Element
pub mod Requests
pub mod Cli
pub mod Laws
pub mod WellFormed
use way_displays.Prelude.{ℕ, ◌+◌, ◌-◌, ◌%◌, ◌^◌, ℤ, pos, negsuc, ltb, Bool, String, if◌then◌else◌}

-- The conversions of the C library that the arguments go through. `size_of` converts to size_t,
-- `lround` gives a long.
pub record Conversions (Real : Type 0) : Type 0 where
  pub strtof : String → Real
  pub atof : String → Real
  pub atoi : String → ℤ
  pub round : Real → Real
  pub size_of : Real → ℕ
  pub lround : Real → ℤ

-- What becomes of the command line: it is read, the program exits, or C says nothing of what it does,
-- since it follows a NULL argument or reads past it.
pub data Parsed (A : Type 0) : Type 0 where
  parsed : A → Parsed A
  exits : ℕ → Parsed A
  undefined : Parsed A

infixl 5 ◌>>=◌
abbrev pub ◌>>=◌ : {A B : Type 0} → Parsed A → (A → Parsed B) → Parsed B
parsed a >>= f = f a
exits status >>= f = exits status
undefined >>= f = undefined

abbrev pub int_max : ℕ
int_max = 2 ^ 31 - 1

-- A long that is stored in an int32_t wraps around, on the compilers that the program is built with.
unfoldable pub int32_of : ℤ → ℤ
int32_of (pos n) = let r = n % 2 ^ 32 in if ltb int_max r then negsuc (2 ^ 32 - 1 - r) else pos r
int32_of (negsuc n) = let r = n % 2 ^ 32 in if ltb int_max r then pos (2 ^ 32 - 1 - r) else negsuc r
