-- ===== src/Client.antt =====
-- src/client.c, with `ipc_receive_responses` of src/ipc.c: the client, which sends a request to the server
-- and shows its responses. What arrives is a list of texts, one for each reading of the socket, `none`
-- where that fails; `load` is libyaml, which gives the root of the document of a text, if there is one.
pub mod Answered
use Prim.Native.Nat.{ℕ}
use way_displays.Prelude.{
  ℤ, pos, ltb_ℤ, Bool, true, false, Option, none, some, String, List, [], ◌∷◌, ◌++◌, if◌then◌else◌,
}
use way_displays.Enums.{IpcRc, ipc_rc_code}
use way_displays.Log.{LogCapLine}
use way_displays.Platform.{Platform}
use way_displays.Ipc.{IpcRequest}
use way_displays.Yaml.{Node, Scanner, Loaded, refused, loaded, undefined}
use way_displays.Yaml.Responses.{IpcResponse, yaml_root_to_ipc_response_plist}

-- What the user sees: the YAML that was received, or the lines of the log.
pub data Shown : Type 0 where
  yaml : String → Shown
  playback : List LogCapLine → Shown

pub record Client : Type 0 where
  pub rc : ℤ
  pub done : Bool
  pub shown : List Shown

abbrev pub no_response : Client
no_response = record { rc = pos 0; done = false; shown = [] }

-- The client waits for a message, has ended, or has read what C says nothing of.
pub data Awaited : Type 0 where
  waits : Awaited
  ended : Client → Awaited
  strays : Awaited

-- YAML is shown unless there is an error, of which the lines are shown.
abbrev shown_yaml : Option String → ℤ → List LogCapLine → Shown
shown_yaml none rc lines = playback lines
shown_yaml (some text) rc lines =
    if ltb_ℤ rc (pos (ipc_rc_code IpcRc.ipc_error)) then yaml text else playback lines

module _ {Real : Type 0} where
  unfoldable pub show_response : IpcRequest Real → Option String → ℤ → List LogCapLine → Shown
  show_response request text rc lines =
      if request.yaml then shown_yaml text rc lines else playback lines

  -- The loop over the responses of one message; the last one counts.
  unfoldable pub take_responses :
      IpcRequest Real → Option String → Client → List (IpcResponse Real) → Client
  unfolding show_response
  take_responses request text client [] = client
  take_responses request text client (r ∷ rs) =
      take_responses request text
        (record {
          rc = r.rc;
          done = r.done;
          shown = client.shown ++ show_response request text r.rc r.log_cap_lines ∷ [];
        })
        rs

  -- Without responses the client gives up.
  abbrev pub take_message :
      IpcRequest Real → Client → Option String → Loaded (List (IpcResponse Real)) → Awaited
  take_message request client text refused =
      ended (record client { rc = pos (ipc_rc_code IpcRc.ipc_bad_response); done = true })
  take_message request client text (loaded responses) =
      ended (take_responses request text client responses)
  take_message request client text undefined = strays

-- The next round, unless the loop is over.
abbrev pub then_next : Awaited → (Client → Awaited) → Awaited
then_next waits next = waits
then_next (ended client) next = next client
then_next strays next = strays

module _ (pf : Platform) (sc : Scanner pf.Real) (addr : String → ℕ)
    (load : String → Option Node) where
  open pf use {Real}

  -- The responses of a reading of the socket.
  unfoldable pub ipc_receive_responses : Option String → Loaded (List (IpcResponse Real))
  unfolding yaml_root_to_ipc_response_plist
  ipc_receive_responses none = refused
  ipc_receive_responses (some text) = yaml_root_to_ipc_response_plist pf sc addr (load text)

  -- The loop over the messages.
  unfoldable pub await_messages : IpcRequest Real → Client → List (Option String) → Awaited
  unfolding take_responses ipc_receive_responses
  await_messages request client [] = if client.done then ended client else waits
  await_messages request client (m ∷ ms) =
      let rest =
        then_next (take_message request client m (ipc_receive_responses m))
          (λ c. await_messages request c ms) in
      if client.done then ended client else rest

  unfoldable pub handle_responses : IpcRequest Real → List (Option String) → Awaited
  unfolding await_messages
  handle_responses request messages = await_messages request no_response messages

  abbrev rc_of : Awaited → Option ℤ
  rc_of (ended client) = some client.rc
  rc_of _ = none

  -- The status of the program, where a server is active and the request could be sent to it; `none`
  -- where it does not end.
  unfoldable pub client : Option (IpcRequest Real) → Bool → Bool → List (Option String) → Option ℤ
  unfolding handle_responses
  client none active sent messages = some (pos 1)
  client (some request) active sent messages =
      if active
      then (if sent then rc_of (handle_responses request messages) else some (pos 1))
      else some (pos 1)
