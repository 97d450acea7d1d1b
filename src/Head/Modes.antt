-- ===== src/Head/Modes.antt =====
-- The operations of src/head.c that change a head: its modes, its preferred mode and its description.
-- The head and the mode object that they are called with are not NULL, but for the arguments that
-- are an `Option`.
use way_displays.Prelude.{
  ℕ, ◌==◌, true, ◌&&◌, not, Option, none, some, String, List, [], ◌∷◌, if◌then◌else◌, is_some, suc,
  zero,
}
use Prim.Native.Char.{code}
use way_displays.Prelude.Text.{codes, strlen}
use way_displays.Platform.{Platform}
use way_displays.Mode.{Mode}
use way_displays.Head.{Head, HeadState, head_init}
use way_displays.Head.Changes.{ptr_eq}

-- What stands behind a given beginning, if the text has it.
abbrev pub drop_prefix : List ℕ → String → Option String
drop_prefix [] s = some s
drop_prefix (c ∷ cs) String.[] = none
drop_prefix (c ∷ cs) (String.◌∷◌ d s) = if c == code d then drop_prefix cs s else none

-- `while (strstr(description, "(null) ") == description) description += 7;` on fuel.
unfoldable pub strip_null : ℕ → String → String
strip_null zero s = s
strip_null (suc fuel) s = elim (drop_prefix (codes "(null) ") s) [
  | none ↦ s
  | some rest ↦ strip_null fuel rest
]

-- Every round takes a character, so the length of the text is enough fuel.
unfoldable pub head_set_description : Head → Option String → Head
unfolding strip_null
head_set_description head none = record head { description = none }
head_set_description head (some s) = record head { description = some (strip_null (strlen s) s) }

abbrev name_or : Option String → Option String
name_or none = some "???"
name_or (some s) = some s

-- A head that stands for a departed one when it is printed.
unfoldable pub head_dummy_init : ℕ → Head → Head
unfolding head_init
head_dummy_init addr head = record (head_init addr) {
  name = name_or head.name;
  description = name_or head.description;
}

-- A pointer to the mode object becomes NULL.
abbrev pub forget : ℕ → Option ℕ → Option ℕ
forget z p = if ptr_eq p (some z) then none else p

abbrev pub forget_mode : ℕ → HeadState → HeadState
forget_mode z s = record s { zmode = forget z s.zmode }

module _ (pf : Platform) where
  open pf use {lib}
  open lib use {pp}

  unfoldable pub head_release_mode : Head → ℕ → Head
  head_release_mode head z = record head {
    modes = pp.remove head.modes z;
    zmode_pref = forget z head.zmode_pref;
    cur = forget_mode z head.cur;
    des = forget_mode z head.des;
  }

  abbrev pref_mode : Head → Option Mode
  pref_mode head = elim head.zmode_pref [ none ↦ none | some p ↦ pp.get head.modes p ]

  unfoldable pub head_set_mode_pref : Head → ℕ → Head
  head_set_mode_pref head z =
      if is_some (pref_mode head)
        && is_some (pp.get head.modes z)
        && not (ptr_eq head.zmode_pref (some z))
      then head
      else record head { zmode_pref = some z }

  -- The loop that adds all failed modes back to the modes.
  unfoldable pub put_back : List (ℕ × Mode) → List (ℕ × Mode) → List (ℕ × Mode)
  put_back modes [] = modes
  put_back modes ((z, m) ∷ rest) = put_back (pp.put modes z m) rest

  -- One round of the loop of `heads_reapply`.
  unfoldable pub head_reapply : Head → Head
  unfolding put_back
  head_reapply head = record head {
    modes = put_back head.modes head.modes_failed;
    modes_failed = [];
    reapply_required = true;
    cur = record head.cur { zmode = none };
  }

  unfoldable pub heads_reapply : List (ℕ × Head) → List (ℕ × Head)
  unfolding head_reapply
  heads_reapply [] = []
  heads_reapply ((z, head) ∷ rest) = (z, head_reapply head) ∷ heads_reapply rest
