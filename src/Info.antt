-- ===== src/Info.antt =====
-- src/info: what is told to a person. `printf` is an argument: how numbers are printed.
pub mod Delta
pub mod Callback
pub mod Reported
pub mod Commands
pub mod Shell
pub mod Safe
pub mod Parts
pub mod Replies
pub mod ModeReplies
pub mod Accepted
pub mod Typed
use way_displays.Prelude.{ℕ, ℤ, Option, none, some, String}
use way_displays.Head.{Head}

pub record Format (Real : Type 0) : Type 0 where
  pub int : ℤ → String
  pub three : Real → String
  -- "%.2f" and "%g".
  pub two : Real → String
  pub general : Real → String
  -- "%*d", and the same with zeros before the number.
  pub padded : ℕ → ℤ → String
  pub zero_padded : ℕ → ℤ → String

-- "%s" of a pointer that is NULL prints so.
abbrev pub text_of : Option String → String
text_of none = "(null)"
text_of (some s) = s

abbrev described : Option String → Option String → String
described (some description) name = description
described none (some name) = name
described none none = "???"

-- `head_human` of src/head.c.
unfoldable pub head_human : Option Head → String
head_human none = "???"
head_human (some head) = described head.description head.name
