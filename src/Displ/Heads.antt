-- ===== src/Displ/Heads.antt =====
-- Following a pointer to a head, after a change of a head.
use way_displays.Prelude.{
  ℕ, ◌==◌, ◌≡◌, refl, inl, inr, false, Option, none, some, List, [], ◌∷◌, arith, Bool-cases,
}
use way_displays.Head.{Head}
use way_displays.Displ.{head_at, update_head}

abbrev pub apply_to : (Head → Head) → Option Head → Option Head
apply_to f none = none
apply_to f (some h) = some (f h)

-- A change that keeps the address changes what the pointer points to.
pub head_at-update_head :
    (heads : List (ℕ × Head)) (addr : ℕ) (f : Head → Head)
    → ((h : Head) → (f h).addr ≡ h.addr)
    → head_at (update_head heads addr f) addr ≡ apply_to f (head_at heads addr)
unfolding head_at update_head
head_at-update_head [] addr f keep = refl
head_at-update_head ((z, h) ∷ rest) addr f keep = elim (Bool-cases (h.addr == addr)) [
  | inl e ↦ rw e (rw (keep h, e))
  | inr e ↦ rw e (rw e (head_at-update_head rest addr f keep))
]

-- And it leaves the other heads alone.
pub head_at-update_head_ne :
    (heads : List (ℕ × Head)) (addr other : ℕ) (f : Head → Head)
    → ((h : Head) → (f h).addr ≡ h.addr)
    → (addr == other) ≡ false
    → head_at (update_head heads addr f) other ≡ head_at heads other
unfolding head_at update_head
head_at-update_head_ne [] addr other f keep n = refl
head_at-update_head_ne ((z, h) ∷ rest) addr other f keep n =
    ground (arith, keep h, head_at-update_head_ne rest addr other f keep n)
