-- ===== src/Displ.antt =====
-- src/displ.c and inc/displ.h: the display, which holds the heads and the change that is under way.
-- A pointer to a head is its address. The heads that are alive are those of the map `heads`, so a
-- pointer is followed by looking there; one that is not found points to a head that was freed.
pub mod Heads
pub mod Listeners
use way_displays.Prelude.{
  ℕ, ◌==◌, Bool, true, false, Option, none, some, List, [], ◌∷◌, if◌then◌else◌,
}
use way_displays.Enums.{CfgElement, DisplState}
use way_displays.Platform.{Platform}
use way_displays.Head.{Head, head_init}
use way_displays.Head.Modes.{head_dummy_init}

-- `element` is NULL where C has 0.
pub record DisplDelta : Type 0 where
  pub element : Option CfgElement
  pub head : Option ℕ
  pub zmode : Option ℕ

pub record Displ : Type 0 where
  pub heads : List (ℕ × Head)
  pub heads_arrived : List ℕ
  pub heads_departed : List Head
  pub zwlr_output_manager_serial : ℕ
  pub state : DisplState
  pub delta : DisplDelta

abbrev pub no_delta : DisplDelta
no_delta = record { element = none; head = none; zmode = none }

unfoldable pub displ_init : Displ
displ_init = record {
  heads = [];
  heads_arrived = [];
  heads_departed = [];
  zwlr_output_manager_serial = 0;
  state = DisplState.idle;
  delta = no_delta;
}

unfoldable pub displ_delta_destroy : Displ → Displ
displ_delta_destroy d = record d { delta = no_delta }

unfoldable pub displ_delta_init : Displ → Option CfgElement → Option ℕ → Option ℕ → Displ
displ_delta_init d element head zmode = record d {
  delta = record { element = element; head = head; zmode = zmode };
}

-- What a pointer to a head points to, if the head is alive.
unfoldable pub head_at : List (ℕ × Head) → ℕ → Option Head
head_at [] addr = none
head_at ((z, h) ∷ rest) addr = if h.addr == addr then some h else head_at rest addr

-- A change of the head that a pointer points to.
unfoldable pub update_head : List (ℕ × Head) → ℕ → (Head → Head) → List (ℕ × Head)
update_head [] addr f = []
update_head ((z, h) ∷ rest) addr f =
    if h.addr == addr then (z, f h) ∷ rest else (z, h) ∷ update_head rest addr f

module _ (pf : Platform) where
  open pf use {lib}
  open lib use {pp, ps}

  -- The head that `calloc` places at `addr` arrives. (A NULL `zhead` is refused.)
  unfoldable pub displ_add_head : Displ → Option ℕ → ℕ → Displ
  displ_add_head d none addr = d
  displ_add_head d (some zhead) addr = record d {
    heads = pp.put d.heads zhead (head_init addr);
    heads_arrived = ps.add (λ a b. a == b) d.heads_arrived addr;
  }

  abbrev pub same_addr : Head → Head → Bool
  same_addr a b = a.addr == b.addr

  -- A dummy, that `calloc` places at `dummy`, stands for the head that departs; the head is freed.
  abbrev pub departs : Displ → ℕ → Head → ℕ → Displ
  departs d zhead head dummy = record d {
    heads = pp.remove d.heads zhead;
    heads_arrived = ps.remove (λ a b. a == b) d.heads_arrived head.addr;
    heads_departed =
        ps.remove same_addr (ps.add same_addr d.heads_departed (head_dummy_init dummy head)) head;
  }

  unfoldable pub displ_finished_head : Displ → ℕ → ℕ → Displ
  displ_finished_head d zhead dummy = elim (pp.get d.heads zhead) [
    | none ↦ d
    | some head ↦ departs d zhead head dummy
  ]
