-- ===== src/Yaml.antt =====
-- src/yaml: from the documents that libyaml loads to configurations, requests and responses, and from these
-- to documents. What is logged of an unexpected value is not modelled, and so neither is the context that is
-- kept for it.
pub mod Primitives
pub mod Modes
pub mod Conditions
pub mod Version1
pub mod Document
pub mod Marshal
pub mod State
pub mod Heads
pub mod Responses
pub mod Lookup
pub mod RoundTrip
pub mod Messages
pub mod Replies
pub mod Overrides
pub mod Parts
pub mod Elements
pub mod DisabledBack
pub mod ModeBack
pub mod Collected
pub mod Writable
pub mod Restored
pub mod Patterns
pub mod DisabledPatterns
pub mod Valid
use way_displays.Prelude.{ℕ, ℤ, Bool, false, Option, none, some, String, List, [], ◌∷◌}

-- A node of a document with what stands below it. An alias stands for what it refers to.
mutual
  pub data Node : Type 0 where
    scalar : String → Node
    sequence : Nodes → Node
    mapping : Pairs → Node

  pub data Nodes : Type 0 where
    no_nodes : Nodes
    node : Node → Nodes → Nodes

  pub data Pairs : Type 0 where
    no_pairs : Pairs
    pair : Node → Node → Pairs → Pairs

abbrev pub items : Nodes → List Node
items no_nodes = []
items (node n rest) = n ∷ items rest

abbrev pub entries : Pairs → List (Node × Node)
entries no_pairs = []
entries (pair k v rest) = (k, v) ∷ entries rest

-- The conversions of the C library: `sscanf` with "%d" and "%f", and those of floats to integers.
pub record Scanner (Real : Type 0) : Type 0 where
  pub scan_int : String → Option ℤ
  pub scan_float : String → Option Real
  pub round : Real → Real
  pub size_of : Real → ℕ
  pub lround : Real → ℤ

-- `uc`, what is found of a configuration of version 1.
pub record Context : Type 0 where
  pub v1_present : Bool
  pub v1_laptop_display_prefix : String

abbrev pub no_context : Context
no_context = record { v1_present = false; v1_laptop_display_prefix = "" }

-- A document is refused, or gives a value, or C says nothing of what is read.
pub data Loaded (A : Type 0) : Type 0 where
  refused : Loaded A
  loaded : A → Loaded A
  undefined : Loaded A
