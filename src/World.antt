-- ===== src/World.antt =====
-- The globals of the server, `g_cfg`, `g_lid`, `g_displ` and `g_cancellation_retries`, with what it has
-- asked of the compositor through src/wl_wrappers.c and told the user, latest last.
use way_displays.Prelude.{ℕ, ℤ, Option, List}
use way_displays.Enums.{LogThreshold}
use way_displays.Cfg.{Cfg}
use way_displays.Lid.{Lid}
use way_displays.Head.{AdaptiveSync}
use way_displays.Head.FindMode.{Message}
use way_displays.Displ.{Displ}

-- The requests of the output management protocol. The objects of a configuration are named by the
-- head that they are for.
pub data Request : Type 0 where
  create_configuration : ℕ → Request
  enable_head disable_head : ℕ → Request
  set_mode : ℕ → Option ℕ → Request
  set_adaptive_sync : ℕ → AdaptiveSync → Request
  set_scale : ℕ → ℤ → Request
  set_position : ℕ → ℤ → ℤ → Request
  set_transform : ℕ → ℕ → Request
  apply : Request

pub record World (Real : Type 0) : Type 0 where
  pub cfg : Cfg Real
  pub lid : Option Lid
  pub displ : Displ
  pub cancellation_retries : ℕ
  pub requests : List Request
  pub messages : List (LogThreshold × Message)

-- The program runs on, has ended by `exit`, or has used memory that it freed.
pub data Outcome (Real : Type 0) : Type 0 where
  running : World Real → Outcome Real
  exited : ℕ → World Real → Outcome Real
  fault : Outcome Real

infixl 5 ◌>>=◌
abbrev pub ◌>>=◌ : {Real : Type 0} → Outcome Real → (World Real → Outcome Real) → Outcome Real
running w >>= f = f w
exited status w >>= f = exited status w
fault >>= f = fault
