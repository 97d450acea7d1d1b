-- ===== src/Server/Protocol.antt =====
-- The abstract view of how the daemon and the compositor take turns: the daemon applies configurations
-- and the compositor answers each, with at most one waiting for its answer.
use way_displays.Prelude.{ℕ, suc, ◌+◌, ◌≡◌, Bool, true, false, if◌then◌else◌, arith}

pub record Protocol : Type 0 where
  pub applied : ℕ
  pub answered : ℕ
  pub waiting : Bool

pub data Step (p : Protocol) : Protocol → Type 0 where
  ask : p.waiting ≡ false → Step p (record p { applied = suc p.applied; waiting = true })
  answer : p.waiting ≡ true → Step p (record p { answered = suc p.answered; waiting = false })

pub data Steps (p : Protocol) : Protocol → Type 0 where
  here : Steps p p
  next : {q r : Protocol} → Steps p q → Step q r → Steps p r

pub Steps-trans : {p q r : Protocol} → Steps p q → Steps q r → Steps p r
Steps-trans a here = a
Steps-trans a (next b s) = next (Steps-trans a b) s

-- Every configuration that was applied has been answered, but the one that waits.
abbrev pub IsBalanced : Protocol → Type 0
IsBalanced p = p.applied ≡ p.answered + (if p.waiting then 1 else 0)

Step-IsBalanced : {p q : Protocol} → Step p q → IsBalanced p → IsBalanced q
Step-IsBalanced (ask e) b = ground arith
Step-IsBalanced (answer e) b = ground arith

pub Steps-IsBalanced : {p q : Protocol} → Steps p q → IsBalanced p → IsBalanced q
Steps-IsBalanced here b = b
Steps-IsBalanced (next s t) b = Step-IsBalanced t (Steps-IsBalanced s b)
