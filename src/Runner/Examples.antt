-- ===== src/Runner/Examples.antt =====
-- The theorems of the runner at concrete inputs.
use git_gym.Prelude.{
  true, false, suc, ℕ, ◌≡◌, refl, ◌⊎◌, false, none, some, List, [], ◌∷◌, map, arith,
}
use git_gym.Prelude.Text.{codes, pos, is_blank}
use git_gym.Prelude.Result.{ok}
use git_gym.Runner.Command.Parse.{parse_command}
use git_gym.Runner.Command.Roundtrip.{
  Word, bare, quoted, text_of, write_line, parse_command-write_line,
}
use git_gym.Runner.Command.Run.{Machine, finished, run_command_with_events}
use git_gym.Runner.Command.Run.Events.{IsRefused, IsLaunched, run_command_with_events_records}
use git_gym.Runner.Terminal.Session.{
  Session, Call, call_subscribe, call_unsubscribe, call_broadcast, call_wait, call_close,
  new_session, finish, eof, run as run_calls,
}
use git_gym.Runner.Terminal.Session.Closed.{Refuses, first_finish_decides}
use git_gym.Runner.Terminal.Session.Channels.{ChannelsInv}
use git_gym.Runner.Terminal.Session.History.{run-ChannelsInv}
use git_gym.Runner.Cleanup.{
  CleanupRequest, Thread, waiting, finished as finished_with, superseded, removed, timer_fires,
  delete_returns, call_schedule, wake_cancelled, new_manager, schedule, run,
}
use git_gym.Runner.Cleanup.Latest.{superseded_never_deletes}

-- `commit -m "a b'"`.
abbrev words : List Word
words = bare 45 (codes "m") ∷ quoted (codes "a b'") ∷ []

parse_command-write_line_example :
    parse_command (write_line (bare 103 (codes "it")) words)
    ≡ ok (map text_of (bare 103 (codes "it") ∷ words))
parse_command-write_line_example =
    parse_command-write_line (bare 103 (codes "it")) words
      ((refl, (refl, (refl, tt))), ((refl, (refl, tt)), (omega arith, tt)))

-- Each process and each snapshot works, and the world counts them.
abbrev machine : Machine ℕ
machine = record {
  start_process = λ args w.
      (record { stdout = codes "done"; stderr = []; duration_ms = 3; end = finished }, suc w);
  capture_snapshot = λ w. (
    ok (record {
      head_commit = codes "abc";
      branch_name = codes "main";
      status_summary = [];
      captured_at = w;
    }),
    suc w,
  );
}

run_command_with_events_records_example :
    let r = run_command_with_events machine (codes "git status") (codes "ws-1") (some []) 0 in
    IsRefused machine (codes "git status") (codes "ws-1") [] r 0
    ⊎ IsLaunched machine (codes "git status") (codes "ws-1") [] r 0
run_command_with_events_records_example =
    run_command_with_events_records machine (codes "git status") (codes "ws-1") [] 0

abbrev cleanup_in : ℕ → CleanupRequest
cleanup_in n = record {
  workspace_id = codes "ws-1";
  path = codes "/ws-1";
  reason = [];
  delete_after = pos n;
}

abbrev first_cleanup : Thread
first_cleanup = record { request = cleanup_in 60; cancelled = false; phase = waiting }

-- The first cleanup waits; the second is due at once; then the timer of the first fires.
superseded_never_deletes_example :
    (t : Thread) × ((run
          (call_schedule false (cleanup_in 0)
            ∷ timer_fires 0
            ∷ delete_returns 1 none removed
            ∷ wake_cancelled 0
            ∷ [])
          (schedule false (cleanup_in 60) new_manager)).threads
        0
      ≡ some t)
    × (t.request.workspace_id ≡ codes "ws-1")
    × ((t.phase ≡ waiting) ⊎ (t.phase ≡ finished_with superseded))
unfolding schedule new_manager is_blank
superseded_never_deletes_example =
    superseded_never_deletes (timer_fires 0 ∷ delete_returns 1 none removed ∷ wake_cancelled 0 ∷ [])
      (cleanup_in 0) (schedule false (cleanup_in 60) new_manager) 0 first_cleanup refl refl refl
      (omega arith) refl

abbrev terminal : Session
terminal = new_session true true true

-- Two subscribers, the first of which leaves before the process ends; then the session is closed.
abbrev calls : List Call
calls =
    call_subscribe
    ∷ call_subscribe
    ∷ call_broadcast (codes "$ ")
    ∷ call_unsubscribe 0
    ∷ call_wait none
    ∷ call_unsubscribe 1
    ∷ call_close none none none
    ∷ []

run-ChannelsInv_example : ChannelsInv (run_calls calls terminal)
run-ChannelsInv_example = run-ChannelsInv calls true true true

first_finish_decides_example :
    ((run_calls calls (finish (some eof) terminal)).subscribers ≡ [])
    × Refuses (some eof) (run_calls calls (finish (some eof) terminal))
unfolding new_session
first_finish_decides_example = first_finish_decides calls (some eof) terminal refl
