-- ===== src/Api/Http/Terminal.antt =====
-- PracticeTerminalWebsocket of handlers/terminal_ws.go. The two goroutines of the bridge run in the
-- order that a schedule gives; what the sockets read and answer to a write is in lists.
pub mod Forwards
mod Examples
use git_gym.Prelude.{
  ℕ, Bool, true, false, Option, none, some, List, [], ◌∷◌, ◌++◌, ◌==◌, if◌then◌else◌,
}
use git_gym.Prelude.Text.{Text, codes, parse_uint, is_empty, trim}
use git_gym.Api.Errors.{Error, Out, ok, err}
use git_gym.Api.Service.{PracticeService}
use git_gym.Api.Service.Access.{connect_terminal}
use git_gym.Api.Http.Reply.{Reply, message, failure, status_for_practice_session_mutation_error}
use git_gym.Api.Http.Session.{AuthenticatedSession}

pub data MessageType : Type 0 where
  text : MessageType
  binary : MessageType
  other_type : ℕ → MessageType

pub record Frame : Type 0 where
  pub message_type : MessageType
  pub payload : Text

-- An error of the bridge: a cancelled context, a close frame of the other side, or anything else.
pub data BridgeError : Type 0 where
  cancelled : BridgeError
  close_error : ℕ → Text → BridgeError
  other_error : Text → BridgeError

pub data Incoming : Type 0 where
  frame : Frame → Incoming
  read_failed : BridgeError → Incoming

-- What a source will read, what the writes to the destination will answer (beyond the end of the list
-- none fails), and what was written there.
pub record Direction : Type 0 where
  pub incoming : List Incoming
  pub write_errors : List (Option BridgeError)
  pub delivered : List Frame

unfoldable pub is_forwarded : MessageType → Bool
is_forwarded text = true
is_forwarded binary = true
is_forwarded (other_type n) = false

-- `dst.Write`.
unfoldable pub write_frame :
    Frame → List (Option BridgeError) → Direction → Option BridgeError × Direction
write_frame f [] d = (none, record d { delivered = d.delivered ++ f ∷ [] })
write_frame f (none ∷ answers) d =
    (none, record d { write_errors = answers; delivered = d.delivered ++ f ∷ [] })
write_frame f (some e ∷ answers) d = (some e, record d { write_errors = answers })

-- One turn of the loop of proxyTerminalFrames; a source with nothing to read makes it wait.
unfoldable pub proxy_step : List Incoming → Direction → Option BridgeError × Direction
unfolding is_forwarded write_frame
proxy_step [] d = (none, d)
proxy_step (read_failed e ∷ incoming) d = (some e, record d { incoming = incoming })
proxy_step (frame f ∷ incoming) d =
    if is_forwarded f.message_type
    then write_frame f d.write_errors (record d { incoming = incoming })
    else (none, record d { incoming = incoming })

pub record Bridge : Type 0 where
  pub to_runner : Direction
  pub to_browser : Direction

-- Up to the first error of either goroutine; a turn of `true` is one of the goroutine to the runner.
unfoldable pub run_bridge : List Bool → Bridge → Option BridgeError × Bridge
unfolding proxy_step
run_bridge [] b = (none, b)
run_bridge (true ∷ turns) b =
    let (e, d) = proxy_step b.to_runner.incoming b.to_runner in
    let rest = run_bridge turns (record b { to_runner = d }) in
    elim e [ some e ↦ (some e, record b { to_runner = d }) | none ↦ rest ]
run_bridge (false ∷ turns) b =
    let (e, d) = proxy_step b.to_browser.incoming b.to_browser in
    let rest = run_bridge turns (record b { to_browser = d }) in
    elim e [ some e ↦ (some e, record b { to_browser = d }) | none ↦ rest ]

abbrev pub normal_closure : ℕ × Text
normal_closure = (1000, [])

unfoldable pub terminal_close_from_error : Option BridgeError → ℕ × Text
terminal_close_from_error none = normal_closure
terminal_close_from_error (some cancelled) = normal_closure
terminal_close_from_error (some (close_error code reason)) = (code, reason)
terminal_close_from_error (some (other_error e)) = (1011, codes "terminal bridge error")

-- The pattern of the origins that may connect; `parse_host` is `url.Parse` and `Host`.
unfoldable pub terminal_origin_pattern : (Text → Option Text) → Text → Option Text
unfolding trim
terminal_origin_pattern parse_host frontend_redirect_url =
    elim (parse_host (trim frontend_redirect_url)) [
      | none ↦ none
      | some host ↦ if is_empty (trim host) then none else some (trim host)
    ]

pub data Outcome (Conn : Type 0) : Type 0 where
  refused : ℕ → Text → Outcome Conn
  failed_with : ℕ → Error → Outcome Conn
  not_accepted : Conn → Outcome Conn
  bridged : Conn → Outcome Conn

module _ {W Conn : Type 0} (s : PracticeService W Conn) (accepted : Bool) where
  connected : Out W Conn → Outcome Conn × W
  unfolding status_for_practice_session_mutation_error
  connected (err e w) = (failed_with (status_for_practice_session_mutation_error e) e, w)
  connected (ok conn w) = (if accepted then bridged conn else not_accepted conn, w)

  with_session_id : ℕ → Option ℕ → W → Outcome Conn × W
  unfolding connected
  with_session_id user_id none w = (refused 400 (codes "invalid session id"), w)
  with_session_id user_id (some id) w =
      if id == 0
      then (refused 400 (codes "invalid session id"), w)
      else connected (connect_terminal s user_id id w)

  unfoldable pub practice_terminal_websocket :
      Text → Option AuthenticatedSession → W → Outcome Conn × W
  unfolding with_session_id parse_uint
  practice_terminal_websocket raw_id none w =
      (refused 500 (codes "authenticated session missing from request context"), w)
  practice_terminal_websocket raw_id (some auth) w =
      if auth.user_id == 0
      then (refused 500 (codes "authenticated session missing from request context"), w)
      else with_session_id auth.user_id (parse_uint raw_id) w
