-- ===== src/Yaml/Responses.antt =====
-- What src/yaml/unmarshal-types.c reads of the responses of the server.
use way_displays.Prelude.{ℕ, ℤ, Bool, Option, none, some, String, List, [], ◌∷◌, ◌++◌}
use way_displays.Enums.{LogThreshold}
use way_displays.Enums.Values.{log_threshold_val}
use way_displays.Log.{LogCapLine}
use way_displays.Platform.{Platform}
use way_displays.Head.{Head}
use way_displays.Lid.{Lid}
use way_displays.Cfg.{Cfg}
use way_displays.Yaml.{
  Node, scalar, sequence, mapping, items, Scanner, Context, Loaded, refused, loaded, undefined,
}
use way_displays.Yaml.Primitives.{
  ◌>>=◌, yaml_scalar_to_string, yaml_scalar_to_boolean, yaml_scalar_to_int, yaml_seq_into_col,
  yaml_map_to_spmap,
}
use way_displays.Yaml.Document.{yaml_map_to_cfg}
use way_displays.Yaml.Heads.{yaml_map_into_heads, yaml_map_to_lid}

-- inc/ipc.h.
pub record IpcResponse (Real : Type 0) : Type 0 where
  pub done : Bool
  pub rc : ℤ
  pub cfg : Option (Cfg Real)
  pub heads : List Head
  pub lid : Option Lid
  pub log_cap_lines : List LogCapLine

abbrev pub bind_loaded : {A B : Type 0} → Loaded A → (A → Loaded B) → Loaded B
bind_loaded refused f = refused
bind_loaded (loaded a) f = f a
bind_loaded undefined f = undefined

-- Where both are there.
abbrev pub add_line : List LogCapLine → Option LogThreshold → Option String → List LogCapLine
add_line lines (some t) (some line) = lines ++ record { threshold = t; line = line } ∷ []
add_line lines _ line = lines

abbrev pub add_lines : List LogCapLine → List (String × Node) → List LogCapLine
add_lines lines [] = lines
add_lines lines ((key, n) ∷ rest) =
    add_lines (add_line lines (log_threshold_val (some key)) (yaml_scalar_to_string (some n))) rest

module _ (pf : Platform) where
  unfoldable pub yaml_map_into_log_cap_lines : List LogCapLine → Node → List LogCapLine
  unfolding yaml_map_to_spmap yaml_scalar_to_string
  yaml_map_into_log_cap_lines lines n = elim (yaml_map_to_spmap pf (some n)) [
    | none ↦ lines
    | some m ↦ add_lines lines m
  ]

  abbrev pub messages_of : Option Node → List LogCapLine
  messages_of n = (yaml_seq_into_col (yaml_map_into_log_cap_lines) [] n).0

module _ (pf : Platform) (sc : Scanner pf.Real) (addr : String → ℕ) where
  open pf use {lib, Real}
  open lib use {sp}

  -- The two fields that a response has.
  abbrev pub status_of : Option Node → Option Node → Option (Bool × ℤ)
  status_of d r =
      yaml_scalar_to_boolean d >>= λ done. yaml_scalar_to_int pf sc r >>= λ rc. some (done, rc)

  abbrev cfg_in : Loaded (Cfg Real × Context) → Loaded (Option (Cfg Real))
  cfg_in l = bind_loaded l (λ c. loaded (some c.0))

  abbrev pub cfg_of : Option Node → Loaded (Option (Cfg Real))
  cfg_of none = loaded none
  cfg_of (some n) = cfg_in (yaml_map_to_cfg pf sc addr n)

  abbrev State : Type 0
  State = Option Lid × List Head × ℕ

  abbrev state_in : ℕ → Option (List (String × Node)) → State
  state_in next none = (none, [], next)
  state_in next (some m) =
      let heads = (yaml_seq_into_col (yaml_map_into_heads pf sc) ([], next) (sp.get m "HEADS")).0 in
      (yaml_map_to_lid pf (sp.get m "LID"), heads.0, heads.1)

  abbrev pub response_of :
      ℕ → Option Node → List LogCapLine → Bool × ℤ → Option (Cfg Real) → IpcResponse Real × ℕ
  response_of next state lines (d, r) c =
      let (lid, heads, after) = state_in next (state >>= λ n. yaml_map_to_spmap pf (some n)) in
      (record { done = d; rc = r; cfg = c; heads = heads; lid = lid; log_cap_lines = lines }, after)

  abbrev Responses : Type 0
  Responses = List (IpcResponse Real) × ℕ

  abbrev pub append_response : List (IpcResponse Real) → IpcResponse Real × ℕ → Responses
  append_response rs (r, after) = (rs ++ r ∷ [], after)

  abbrev pub add_response :
      Responses
      → Loaded (Option (Cfg Real))
      → Option Node
      → List LogCapLine
      → Option (Bool × ℤ)
      → Loaded Responses
  add_response rs cfg state lines none = loaded rs
  add_response (rs, next) cfg state lines (some status) =
      bind_loaded cfg (λ c. loaded (append_response rs (response_of next state lines status c)))

  abbrev pub add_if_map : Responses → Option (List (String × Node)) → Loaded Responses
  add_if_map rs none = loaded rs
  add_if_map rs (some m) =
      add_response rs (cfg_of (sp.get m "CFG")) (sp.get m "STATE")
        (messages_of pf (sp.get m "MESSAGES")) (status_of (sp.get m "DONE") (sp.get m "RC"))

  -- A response that lacks DONE or RC is left out.
  unfoldable pub yaml_map_into_ipc_responses : Responses → Node → Loaded Responses
  unfolding yaml_map_to_spmap yaml_scalar_to_boolean yaml_scalar_to_int yaml_map_to_cfg
      yaml_map_into_heads yaml_map_to_lid yaml_map_into_log_cap_lines yaml_seq_into_col
  yaml_map_into_ipc_responses rs n = add_if_map rs (yaml_map_to_spmap pf (some n))

  abbrev pub all_responses : Responses → List Node → Loaded Responses
  all_responses rs [] = loaded rs
  all_responses rs (n ∷ ns) =
      bind_loaded (yaml_map_into_ipc_responses rs n) (λ after. all_responses after ns)

  abbrev pub if_any_response : Loaded Responses → Loaded (List (IpcResponse Real))
  if_any_response (loaded (r ∷ rs, next)) = loaded (r ∷ rs)
  if_any_response undefined = undefined
  if_any_response _ = refused

  -- One response or a sequence of them; without any the document is refused.
  unfoldable pub yaml_root_to_ipc_response_plist : Option Node → Loaded (List (IpcResponse Real))
  unfolding yaml_map_into_ipc_responses
  yaml_root_to_ipc_response_plist none = refused
  yaml_root_to_ipc_response_plist (some (sequence ns)) =
      if_any_response (all_responses ([], 1) (items ns))
  yaml_root_to_ipc_response_plist (some (mapping ps)) =
      if_any_response (yaml_map_into_ipc_responses ([], 1) (mapping ps))
  yaml_root_to_ipc_response_plist (some (scalar s)) = refused
