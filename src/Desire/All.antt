-- ===== src/Desire/All.antt =====
-- `desire` of src/desire.c: every head in turn, then the order and the positions of all.
use way_displays.Prelude.{ℕ, Option, List, [], ◌∷◌, ◌++◌}
use way_displays.Enums.{LogThreshold}
use way_displays.Platform.{Platform}
use way_displays.Cfg.{Cfg}
use way_displays.Lid.{Lid}
use way_displays.Head.{Head}
use way_displays.Head.FindMode.{Message}
use way_displays.Displ.{update_head}
use way_displays.World.{World}
use way_displays.Desire.{desire_head}
use way_displays.Desire.Order.{desire_order}
use way_displays.Desire.Positions.{desire_positions}

-- The heads of the ordered list are those of the map, which their positions are written to.
abbrev pub write_positions : List (ℕ × Head) → List Head → List (ℕ × Head)
write_positions heads [] = heads
write_positions heads (h ∷ hs) =
    write_positions
      (update_head heads h.addr
        (λ old. record old { des = record old.des { x = h.des.x; y = h.des.y } }))
      hs

-- What the loop over the heads leaves.
pub record Loop (Real : Type 0) : Type 0 where
  pub cfg : Cfg Real
  pub heads : List (ℕ × Head)
  pub messages : List (LogThreshold × Message)

module _ (pf : Platform) where
  open pf use {Real}

  -- The loop: `before` are the heads that are done, and the heads of the map at each round are those
  -- and the ones to come.
  unfoldable pub desire_each :
      Cfg Real
      → Option Lid
      → List (ℕ × Head)
      → List (ℕ × Head)
      → List (LogThreshold × Message)
      → Loop Real
  desire_each cfg lid before [] messages = record { cfg = cfg; heads = before; messages = messages }
  desire_each cfg lid before ((z, h) ∷ rest) messages =
      let d = desire_head pf cfg lid (before ++ ((z, h) ∷ rest)) h in
      desire_each d.cfg lid (before ++ ((z, d.head) ∷ [])) rest (messages ++ d.messages)

  unfoldable pub desire : World Real → World Real
  unfolding desire_each
  desire w =
      let l = desire_each w.cfg w.lid [] w.displ.heads w.messages in
      let ordered = desire_order pf l.cfg.order_name_desc l.heads in
      let placed = desire_positions l.cfg.arrange l.cfg.align ordered in
      record w {
        cfg = l.cfg;
        displ = record w.displ { heads = write_positions l.heads placed };
        messages = l.messages;
      }
