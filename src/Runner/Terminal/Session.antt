-- ===== src/Runner/Terminal/Session.antt =====
-- TerminalSession of services/runner/internal/engine/terminal_sessions.go. Each section under the mutex
-- or in a `sync.Once` is one function; what the pseudo-terminal and the process answer is an argument.
-- A channel is the number of its subscriber, with the chunks that were sent to it.
pub mod Closed
pub mod Channels
pub mod History
use git_gym.Prelude.{
  ℕ, suc, ◌+◌, Bool, true, false, Option, none, some, List, [], ◌∷◌, ◌++◌, if◌then◌else◌, length,
  ltb, ◌&&◌,
}
use git_gym.Prelude.Text.{Text, ℤ}
use git_gym.Prelude.Result.{Result, ok, err}
use git_gym.Prelude.Map.{insert, erase, has}
use git_gym.Runner.Terminal.Chunks.{split_terminal_input_chunks}

pub data TerminalError : Type 0 where
  err_closed eof process_done no_input no_resizing no_process : TerminalError
  exit_error : ℤ → TerminalError
  other : Text → TerminalError
  joined : TerminalError → TerminalError → TerminalError

pub record Session : Type 0 where
  pub has_backend : Bool
  pub has_terminate : Bool
  pub has_wait : Bool
  pub subscribers : List (ℕ × List Text)
  pub closed_channels : List ℕ
  pub next_id : ℕ
  pub closed : Bool
  pub close_err : Option TerminalError
  pub backend_err : Option TerminalError
  pub wait_err : Option TerminalError
  pub done_once : Bool
  pub backend_once : Bool
  pub wait_once : Bool

-- startTerminalSession behind the start of the shell, which sets the backend and the two functions.
unfoldable pub new_session : Bool → Bool → Bool → Session
new_session backend terminate wait = record {
  has_backend = backend;
  has_terminate = terminate;
  has_wait = wait;
  subscribers = [];
  closed_channels = [];
  next_id = 0;
  closed = false;
  close_err = none;
  backend_err = none;
  wait_err = none;
  done_once = false;
  backend_once = false;
  wait_once = false;
}

unfoldable pub keys : List (ℕ × List Text) → List ℕ
keys [] = []
keys ((id, chunks) ∷ rest) = id ∷ keys rest

-- The error of a session that is closed: `closeErr`, or `os.ErrClosed` where it is nil.
abbrev pub closed_error : Option TerminalError → TerminalError
closed_error none = err_closed
closed_error (some e) = e

-- `errors.Join(a, b)`.
abbrev pub join : Option TerminalError → Option TerminalError → Option TerminalError
join none b = b
join (some a) none = some a
join (some a) (some b) = some (joined a b)

unfoldable pub finish : Option TerminalError → Session → Session
unfolding keys
finish error s = if s.done_once then s else record s {
  closed = true;
  close_err = error;
  subscribers = [];
  closed_channels = keys s.subscribers ++ s.closed_channels;
  done_once = true;
}

unfoldable pub subscribe : Session → Result TerminalError ℕ × Session
subscribe s = if s.closed then (err (closed_error s.close_err), s) else (
  ok s.next_id,
  record s { next_id = suc s.next_id; subscribers = insert s.next_id [] s.subscribers },
)

-- What subscribe returns for the end of the subscription.
unfoldable pub unsubscribe : ℕ → Session → Session
unsubscribe id s =
    if has id s.subscribers
    then record s { subscribers = erase id s.subscribers; closed_channels = id ∷ s.closed_channels }
    else s

unfoldable pub send_all : Text → List (ℕ × List Text) → List (ℕ × List Text)
send_all chunk [] = []
send_all chunk ((id, sent) ∷ rest) = (id, sent ++ chunk ∷ []) ∷ send_all chunk rest

-- The state once every send has gone through; a send waits while a channel is full.
unfoldable pub broadcast : Text → Session → Session
unfolding send_all
broadcast chunk s = if s.closed then s else record s { subscribers = send_all chunk s.subscribers }

unfoldable pub close_backend : Option TerminalError → Session → Session
close_backend outcome s = if s.backend_once then s else record s {
  backend_once = true;
  backend_err = if s.has_backend then outcome else s.backend_err;
}

unfoldable pub normalize_wait_close_err : Option TerminalError → Option TerminalError
normalize_wait_close_err none = none
normalize_wait_close_err (some (exit_error code)) = some eof
normalize_wait_close_err (some e) = some e

unfoldable pub wait_process : Option TerminalError → Session → Session
unfolding finish normalize_wait_close_err
wait_process outcome s =
    if s.wait_once
    then s
    else (if s.has_wait
        then finish (normalize_wait_close_err outcome)
            (record s { wait_once = true; wait_err = outcome })
        else record s { wait_once = true; wait_err = some no_process })

-- The error that reapProcess makes of the one that waitProcess returns.
unfoldable pub reap_error : Option TerminalError → Option TerminalError
reap_error none = none
reap_error (some (exit_error code)) = none
reap_error (some process_done) = none
reap_error (some e) = some e

-- close, from what ending the process tree, closing the backend and waiting return.
unfoldable pub close :
    Option TerminalError
    → Option TerminalError
    → Option TerminalError
    → Session
    → Option TerminalError × Session
unfolding finish close_backend wait_process reap_error
close terminated closing waited s =
    let s₁ = finish (some err_closed) s in
    let s₂ = (if s₁.has_backend then close_backend closing s₁ else s₁) in
    let s₃ = wait_process waited s₂ in
    (
      join
          (join (if s₁.has_terminate then terminated else none)
            (if s₁.has_backend then s₂.backend_err else none))
          (reap_error s₃.wait_err),
      s₃,
    )

-- The loop over the chunks stops at the first write that fails; the chunks that were written.
write_chunks :
    (Text → Option TerminalError) → List Text → List Text → Option TerminalError × List Text
write_chunks write written [] = (none, written)
write_chunks write written (chunk ∷ rest) = elim (write chunk) [
  | some e ↦ (some e, written)
  | none ↦ write_chunks write (written ++ chunk ∷ []) rest
]

-- WriteInput: the error, and what reached the backend.
unfoldable pub write_input :
    (Text → Option TerminalError) → Text → Session → Option TerminalError × List Text
unfolding write_chunks
write_input write input s =
    if s.closed
    then (some (closed_error s.close_err), [])
    else (if s.has_backend
        then write_chunks write [] (split_terminal_input_chunks input)
        else (some no_input, []))

unfoldable pub resize : Option TerminalError → Session → Option TerminalError
resize outcome s =
    if s.closed
    then some (closed_error s.close_err)
    else (if s.has_backend then outcome else some no_resizing)

-- What changes a session: its methods, the unsubscribe functions, and the two goroutines.
pub data Call : Type 0 where
  call_subscribe : Call
  call_unsubscribe : ℕ → Call
  call_broadcast : Text → Call
  call_finish : Option TerminalError → Call
  call_close_backend : Option TerminalError → Call
  call_wait : Option TerminalError → Call
  call_close : Option TerminalError → Option TerminalError → Option TerminalError → Call

unfoldable pub step : Call → Session → Session
unfolding subscribe unsubscribe broadcast finish close_backend wait_process close
step call_subscribe s = (subscribe s).1
step (call_unsubscribe id) s = unsubscribe id s
step (call_broadcast chunk) s = broadcast chunk s
step (call_finish error) s = finish error s
step (call_close_backend outcome) s = close_backend outcome s
step (call_wait outcome) s = wait_process outcome s
step (call_close terminated closing waited) s = (close terminated closing waited s).1

unfoldable pub run : List Call → Session → Session
unfolding step
run [] s = s
run (c ∷ cs) s = run cs (step c s)
