-- ===== src/Platform.antt =====
-- What the program takes from outside its sources: the containers of lib/alex-c, the regular
-- expressions of the C library, floating point, and libwayland's fixed point numbers.
use way_displays.Prelude.{ℕ, ℤ, pos, ◌≡◌, Bool, Option, String}
use way_displays.Collections.{Collections}

pub record Platform : Type 1 where
  pub lib : Collections
  -- `regcomp` with REG_EXTENDED: what the compiled expression matches, or an error.
  pub regcomp : String → Option (String → Bool)
  -- float and double, and the operations on them.
  pub Real : Type 0
  pub of_int : ℤ → Real
  pub add : Real → Real → Real
  pub mul : Real → Real → Real
  pub div : Real → Real → Real
  pub lt : Real → Real → Bool
  pub eqb : Real → Real → Bool
  pub ceil : Real → Real
  -- The conversion to an integer type, which truncates.
  pub trunc : Real → ℤ
  pub wl_fixed_from_double : Real → ℤ
  pub wl_fixed_to_double : ℤ → Real
  -- What the machine leaves where C has no answer: an int32_t from a value out of its range.
  pub out_of_range : ℤ
  -- The object that libwayland makes for the configuration of a head.
  pub head_configuration : ℕ → ℕ
  -- `equal_strcmp` of lib/alex-c: both NULL, or equal texts.
  pub equal_strcmp : Option String → Option String → Bool
  -- Fixed point has 8 fractional bits.
  pub wl_fixed-one : wl_fixed_from_double (of_int (pos 1)) ≡ pos 256
