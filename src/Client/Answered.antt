-- ===== src/Client/Answered.antt =====
-- The client with the daemon: what src/client.c makes of the responses that src/ipc.c sends.
use Prim.Native.Nat.{ℕ}
use way_displays.Prelude.{
  if◌then◌else◌, ◌≡◌, refl, sym, ap, ◌∙◌, inl, inr, ℤ, pos, Bool, true, false, Option, none, some,
  String, List, [], ◌∷◌, ◌++◌, map, All, Option-cases,
}
use mathlib.Core.List.{append_assoc}
use mathlib.Core.Option.{some-injective}
use way_displays.Enums.{IpcCommand, LogThreshold}
use way_displays.Cfg.{Cfg}
use way_displays.Head.{Head}
use way_displays.Platform.{Platform}
use way_displays.World.{World}
use way_displays.Ipc.{
  IpcRequest, IpcOperation, lines_from, unmarshalled, ipc_receive_request, ipc_request_filter,
}
use way_displays.Yaml.{Node, Scanner, Loaded, loaded}
use way_displays.Yaml.Document.{yaml_root_to_ipc_request}
use way_displays.Yaml.Marshal.{Printer, yaml_root_from_ipc_request, yaml_map_from_ipc_request}
use way_displays.Yaml.RoundTrip.{request_for}
use way_displays.Yaml.Restored.{WritableIf, request_restored}
use way_displays.Yaml.State.{yaml_root_from_ipc_operation}
use way_displays.Yaml.Replies.{reply_round_trip}
use way_displays.Client.{
  Client, Shown, ended, no_response, take_message, take_responses, show_response, await_messages,
  then_next, handle_responses, ipc_receive_responses,
}

-- A response: the daemon's globals and operation as it is sent, and the text of its document.
pub record Sent (Real : Type 0) : Type 0 where
  pub world : World Real
  pub operation : IpcOperation Real
  pub text : String

module _ (pf : Platform) (sc : Scanner pf.Real) (pr : Printer pf.Real) (addr : String → ℕ)
    (load : String → Option Node) where
  open pf use {Real}

  -- What the user asks for.
  abbrev pub asked : IpcCommand → Option LogThreshold → Option (Cfg Real) → Bool → IpcRequest Real
  asked command t cfg yaml = record (request_for command t cfg) { yaml = yaml }

  -- The daemon reads the document of the client's request, notes the descriptor that it has accepted,
  -- and filters the request by the configuration and the heads that it has then.
  abbrev pub FromClient : IpcRequest Real → IpcRequest Real → Type 0
  FromClient request r =
      (sent : IpcRequest Real) × (received : IpcRequest Real) × (descriptor : ℤ) × (c : Cfg Real)
      × (heads : List (ℕ × Head)) × (yaml_root_to_ipc_request pf sc addr
            (yaml_root_from_ipc_request pf pr request)
          ≡ loaded sent)
      × (ipc_receive_request (unmarshalled descriptor sent) ≡ some received)
      × (r ≡ (ipc_request_filter pf c heads received).1)

  -- The text is loaded as the document that was made of the operation, and the return code is read as
  -- it is printed.
  abbrev IsRead : Sent Real → Type 0
  IsRead s =
      (load s.text ≡ yaml_root_from_ipc_operation pf pr s.world s.operation)
      × (sc.scan_int (pr.show_int (pos s.operation.rc)) ≡ some (pos s.operation.rc))

  -- The operation is one of what the daemon makes of the client's request.
  abbrev pub Arrives : IpcRequest Real → Sent Real → Type 0
  Arrives request s =
      (r : IpcRequest Real) × (s.operation.request ≡ some r) × FromClient request r × IsRead s

  -- What the client relies on: both requests have the same threshold.
  abbrev IsHeard : IpcRequest Real → Sent Real → Type 0
  IsHeard request s =
      (r : IpcRequest Real) × (s.operation.request ≡ some r)
      × (r.log_threshold ≡ request.log_threshold)
      × IsRead s

  filter-threshold :
      (c : Cfg Real) (heads : List (ℕ × Head)) (r : IpcRequest Real)
      → (ipc_request_filter pf c heads r).1.log_threshold ≡ r.log_threshold
  unfolding ipc_request_filter
  filter-threshold c heads r = elim (Option-cases r.cfg) [
    | inl e ↦ rw (e, ipc_request_filter) refl
    | inr (x, e) ↦ rw (e, ipc_request_filter) refl
  ]

  abbrev threshold_in : Loaded (IpcRequest Real) → Option LogThreshold
  threshold_in (loaded r) = r.log_threshold
  threshold_in _ = none

  FromClient-threshold :
      (command : IpcCommand) (t : Option LogThreshold) (cfg : Option (Cfg Real)) (yaml : Bool)
      (r : IpcRequest Real)
      → WritableIf pf sc pr addr cfg
      → FromClient (asked command t cfg yaml) r
      → r.log_threshold ≡ t
  unfolding yaml_root_from_ipc_request yaml_map_from_ipc_request ipc_receive_request
  FromClient-threshold command t cfg yaml r w (sent, received, descriptor, c, heads, e, g, q) =
      ap (λ r. r.log_threshold) q
      ∙ filter-threshold c heads received
      ∙ ap (λ r. r.log_threshold) (sym (some-injective _ _ g))
      ∙ ap threshold_in (sym e ∙ request_restored pf sc pr addr command t cfg w)

  Arrives-IsHeard :
      (command : IpcCommand) (t : Option LogThreshold) (cfg : Option (Cfg Real)) (yaml : Bool)
      (s : Sent Real)
      → WritableIf pf sc pr addr cfg
      → Arrives (asked command t cfg yaml) s
      → IsHeard (asked command t cfg yaml) s
  Arrives-IsHeard command t cfg yaml s w (r, e, made, read) =
      (r, e, FromClient-threshold command t cfg yaml r w made, read)

  all-IsHeard :
      (command : IpcCommand) (t : Option LogThreshold) (cfg : Option (Cfg Real)) (yaml : Bool)
      (l : List (Sent Real))
      → WritableIf pf sc pr addr cfg
      → All (λ r. Arrives (asked command t cfg yaml) r × (r.operation.done ≡ false)) l
      → All (λ r. IsHeard (asked command t cfg yaml) r × (r.operation.done ≡ false)) l
  all-IsHeard command t cfg yaml [] w h = tt
  all-IsHeard command t cfg yaml (s ∷ l) w h = (
    (Arrives-IsHeard command t cfg yaml s w h.0.0, h.0.1),
    all-IsHeard command t cfg yaml l w h.1,
  )

  abbrev pub shown_of : IpcRequest Real → Sent Real → Shown
  shown_of request s =
      show_response request (some s.text) (pos s.operation.rc)
        (lines_from request.log_threshold s.operation.log_cap_lines)

  abbrev after : IpcRequest Real → Client → Sent Real → Client
  after request c s = record {
    rc = pos s.operation.rc;
    done = s.operation.done;
    shown = c.shown ++ shown_of request s ∷ [];
  }

  taken :
      (request : IpcRequest Real) (c : Client) (s : Sent Real)
      → IsHeard request s
      → take_message request c (some s.text) (ipc_receive_responses pf sc addr load (some s.text))
        ≡ ended (after request c s)
  unfolding ipc_receive_responses take_responses
  taken request c s (q, e, same, (l, h)) =
      let (r, er, ed, ec, el) = reply_round_trip pf sc pr addr s.world q s.operation e h in
      rw (l, er, ed, ec, el, same) refl

  abbrev texts : List (Sent Real) → List (Option String)
  texts l = map (λ s. some s.text) l

  abbrev shown_all : IpcRequest Real → List (Sent Real) → List Shown
  shown_all request l = map (shown_of request) l

  -- The client at the end of the loop.
  abbrev pub answered : IpcRequest Real → Client → List (Sent Real) → Sent Real → Client
  answered request c l s = record {
    rc = pos s.operation.rc;
    done = true;
    shown = c.shown ++ (shown_all request l ++ shown_of request s ∷ []);
  }

  abbrev pub read_texts : List (Sent Real) → Sent Real → List (Option String) → List (Option String)
  read_texts [] s more = some s.text ∷ more
  read_texts (r ∷ rs) s more = some r.text ∷ read_texts rs s more

  await_step :
      (request : IpcRequest Real) (c : Client) (s : Sent Real) (ms : List (Option String))
      → c.done ≡ false
      → IsHeard request s
      → await_messages pf sc addr load request c (some s.text ∷ ms)
        ≡ await_messages pf sc addr load request (after request c s) ms
  unfolding await_messages
  await_step request c s ms e a i =
      if e i
      then ended c
      else then_next (taken request c s a i) (λ d. await_messages pf sc addr load request d ms)

  await_over :
      (request : IpcRequest Real) (c : Client) (ms : List (Option String))
      → c.done ≡ true
      → await_messages pf sc addr load request c ms ≡ ended c
  unfolding await_messages
  await_over request c [] e = rw e refl
  await_over request c (m ∷ ms) e = rw e refl

  await_through :
      (request : IpcRequest Real) (c : Client) (l : List (Sent Real)) (s : Sent Real)
      (more : List (Option String))
      → c.done ≡ false
      → All (λ r. IsHeard request r × (r.operation.done ≡ false)) l
      → IsHeard request s
      → s.operation.done ≡ true
      → await_messages pf sc addr load request c (read_texts l s more)
        ≡ ended (answered request c l s)
  await_through request c [] s more e h a d =
      await_step request c s more e a
      ∙ await_over request (after request c s) more d
      ∙ (λ i. ended (record (after request c s) { done = d i }))
  await_through request c (r ∷ rs) s more e h a d =
      await_step request c r (read_texts rs s more) e h.0.0
      ∙ await_through request (after request c r) rs s more h.0.1 h.1 a d
      ∙ (λ i. ended (record (answered request c rs s) {
        shown =
            append_assoc c.shown (shown_of request r ∷ [])
              (shown_all request rs ++ shown_of request s ∷ []) i;
      }))

  -- Where the configuration of a request can be written, each message of the daemon arrives as it was
  -- made of an operation on what the daemon makes of the request, and the operation is done in the last
  -- of them only, the client ends with that one, whatever follows: its return code is that of the
  -- operation, and it has shown what each of them says, in their order.
  pub client_answered :
      (command : IpcCommand) (t : Option LogThreshold) (cfg : Option (Cfg Real)) (yaml : Bool)
      (l : List (Sent Real)) (s : Sent Real) (more : List (Option String))
      → WritableIf pf sc pr addr cfg
      → All (λ r. Arrives (asked command t cfg yaml) r × (r.operation.done ≡ false)) l
      → Arrives (asked command t cfg yaml) s
      → s.operation.done ≡ true
      → handle_responses pf sc addr load (asked command t cfg yaml) (read_texts l s more)
        ≡ ended (answered (asked command t cfg yaml) no_response l s)
  unfolding handle_responses
  client_answered command t cfg yaml l s more w h a d =
      await_through (asked command t cfg yaml) no_response l s more refl
        (all-IsHeard command t cfg yaml l w h) (Arrives-IsHeard command t cfg yaml s w a) d
