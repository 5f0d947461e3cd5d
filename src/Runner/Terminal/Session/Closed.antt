-- ===== src/Runner/Terminal/Session/Closed.antt =====
-- What the end of a TerminalSession (services/runner/internal/engine/terminal_sessions.go) means.
use git_gym.Prelude.{ℕ, ◌≡◌, ap, true, false, Option, some, List, [], ◌∷◌, arith}
use git_gym.Prelude.Text.{Text}
use git_gym.Prelude.Map.{has, lookup}
use git_gym.Prelude.Result.{err}
use git_gym.Runner.Terminal.Session.{
  Session, TerminalError, Call, call_subscribe, call_unsubscribe, call_broadcast, call_finish,
  call_close_backend, call_wait, call_close, closed_error, finish, subscribe, unsubscribe,
  broadcast, close_backend, wait_process, close, write_input, resize, step, run,
}

-- A session that has ended with `error`.
abbrev pub HasEnded : Option TerminalError → Session → Type 0
HasEnded error s =
    (s.done_once ≡ true) × (s.closed ≡ true) × (s.close_err ≡ error) × (s.subscribers ≡ [])

no_channel : (id : ℕ) (s : Session) → s.subscribers ≡ [] → has id s.subscribers ≡ false
unfolding lookup
no_channel id s none_left = ap (has id) none_left

step-HasEnded :
    (c : Call) (error : Option TerminalError) (s : Session)
    → HasEnded error s
    → HasEnded error (step c s)
unfolding step
step-HasEnded call_subscribe error s h = unfold subscribe in ground arith
step-HasEnded (call_unsubscribe id) error s h =
    unfold unsubscribe in ground (arith, no_channel id s h.3)
step-HasEnded (call_broadcast chunk) error s h = unfold broadcast in ground arith
step-HasEnded (call_finish e) error s h = unfold finish in ground arith
step-HasEnded (call_close_backend outcome) error s h = unfold close_backend in ground arith
step-HasEnded (call_wait outcome) error s h = unfold wait_process in ground arith
step-HasEnded (call_close terminated closing waited) error s h = unfold close in ground arith

run-HasEnded :
    (cs : List Call) (error : Option TerminalError) (s : Session)
    → HasEnded error s
    → HasEnded error (run cs s)
unfolding run
run-HasEnded [] error s h = h
run-HasEnded (c ∷ cs) error s h = run-HasEnded cs error (step c s) (step-HasEnded c error s h)

-- What the methods answer of a session that has ended with `error`.
abbrev pub Refuses : Option TerminalError → Session → Type 0
Refuses error s =
    (subscribe s ≡ (err (closed_error error), s))
    × ((write : Text → Option TerminalError) (input : Text)
        → write_input write input s ≡ (some (closed_error error), []))
    × ((outcome : Option TerminalError) → resize outcome s ≡ some (closed_error error))
    × ((chunk : Text) → broadcast chunk s ≡ s)

ended-Refuses : (error : Option TerminalError) (s : Session) → HasEnded error s → Refuses error s
unfolding subscribe write_input resize broadcast
ended-Refuses error s (done, closed, why, none_left) = (
  ground arith,
  (λ write input. ground arith),
  (λ outcome. ground arith),
  (λ chunk. ground arith),
)

-- The first end of a session that is not closed decides: after any calls that follow it no channel
-- is left, and subscribing, writing and resizing are refused with the error of that first end, or
-- with `os.ErrClosed` where it has none; a broadcast changes nothing.
pub first_finish_decides :
    (cs : List Call) (error : Option TerminalError) (s : Session)
    → s.done_once ≡ false
    → ((run cs (finish error s)).subscribers ≡ []) × Refuses error (run cs (finish error s))
unfolding finish
first_finish_decides cs error s fresh =
    let ended : HasEnded error (finish error s) = ground arith in
    let after = run-HasEnded cs error (finish error s) ended in
    (after.3, ended-Refuses error (run cs (finish error s)) after)
