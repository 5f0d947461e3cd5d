-- ===== src/Runner/Command/Run.antt =====
-- RunCommand and RunCommandWithEvents of services/runner/internal/engine/commands.go. The machine is
-- a parameter: it starts a process and reads a snapshot of the repository. The recorder is the list
-- of its events; `none` is a nil recorder.
pub mod Events
use git_gym.Prelude.{ℕ, Bool, true, false, Option, none, some, List, [], ◌∷◌, ◌++◌}
use git_gym.Prelude.Text.{Text, ℤ, pos}
use git_gym.Prelude.Result.{Result, ok, err, ◌>>=◌}
use git_gym.Runner.Command.Parse.{CommandError, parse_command, validate_command_policy}

pub record CommandResult : Type 0 where
  pub stdout : Text
  pub stderr : Text
  pub exit_code : ℤ
  pub duration_ms : ℕ

pub record Snapshot : Type 0 where
  pub head_commit : Text
  pub branch_name : Text
  pub status_summary : List Text
  pub captured_at : ℕ

-- How `cmd.Run()` ends: in time or by the deadline, with an exit status, or not started at all.
pub data RunEnd : Type 0 where
  finished : RunEnd
  exit_error : ℤ → RunEnd
  deadline_exceeded : RunEnd
  not_run : Text → RunEnd

pub record Process : Type 0 where
  pub stdout : Text
  pub stderr : Text
  pub duration_ms : ℕ
  pub end : RunEnd

pub record Machine (W : Type 0) : Type 0 where
  pub start_process : List Text → W → Process × W
  pub capture_snapshot : W → Result Text Snapshot × W

pub data EngineError : Type 0 where
  refused : CommandError → EngineError
  timed_out : EngineError
  start_failed : Text → EngineError
  pre_snapshot_failed : Text → EngineError
  post_snapshot_failed : Text → EngineError
  both : EngineError → EngineError → EngineError

-- The payload of a `command_started` or `command_finished` event; an absent key is `none`.
pub data Event : Type 0 where
  command_started : Text → Text → Snapshot → Event
  command_finished :
      Text
      → Text
      → Option (ℤ × ℕ)
      → Option EngineError
      → Option EngineError
      → Option Snapshot
      → Event

unfoldable pub outcome_of : Process → RunEnd → Result EngineError CommandResult
outcome_of p finished = ok (record {
  stdout = p.stdout;
  stderr = p.stderr;
  exit_code = pos 0;
  duration_ms = p.duration_ms;
})
outcome_of p (exit_error code) =
    ok (record {
      stdout = p.stdout;
      stderr = p.stderr;
      exit_code = code;
      duration_ms = p.duration_ms;
    })
outcome_of p deadline_exceeded = err timed_out
outcome_of p (not_run message) = err (start_failed message)

unfoldable pub record_event : Event → Option (List Event) → Option (List Event)
record_event event none = none
record_event event (some events) = some (events ++ event ∷ [])

-- The arguments, or why the command line is refused.
unfoldable pub accepted_parts : Text → Result CommandError (List Text)
accepted_parts raw = parse_command raw >>= λ parts. validate_command_policy parts >>= λ _. ok parts

-- What the callers read of a result: the zero value beside an error.
unfoldable pub result_or_zero : Result EngineError CommandResult → CommandResult
result_or_zero (ok r) = r
result_or_zero (err e) = record { stdout = []; stderr = []; exit_code = pos 0; duration_ms = 0 }

unfoldable pub error_of : {E A : Type 0} → Result E A → Option E
error_of (ok a) = none
error_of (err e) = some e

unfoldable pub post_error : Result Text Snapshot → Option EngineError
post_error (ok snapshot) = none
post_error (err message) = some (post_snapshot_failed message)

unfoldable pub post_snapshot : Result Text Snapshot → Option Snapshot
post_snapshot (ok snapshot) = some snapshot
post_snapshot (err message) = none

-- The four returns at the end.
unfoldable pub combined : Option EngineError → Option EngineError → Option EngineError
combined none none = none
combined none (some f) = some f
combined (some e) none = some e
combined (some e) (some f) = some (both e f)

module _ {W : Type 0} (machine : Machine W) where
  unfoldable pub run_command : List Text → W → Result EngineError CommandResult × W
  unfolding outcome_of
  run_command parts w =
      let (process, w') = machine.start_process parts w in (outcome_of process process.end, w')

  -- RunCommand.
  unfoldable pub run_plain : Text → W → Result EngineError CommandResult × W
  unfolding accepted_parts run_command
  run_plain raw w = elim (accepted_parts raw) [
    | err e ↦ (err (refused e), w)
    | ok parts ↦ run_command parts w
  ]

  pub record Ran : Type 0 where
    pub result : CommandResult
    pub error : Option EngineError
    pub recorder : Option (List Event)
    pub world : W

  -- Ends before a process was started.
  not_launched : Text → Text → EngineError → Option (List Event) → W → Ran
  unfolding record_event result_or_zero
  not_launched raw workspace_id e recorder w = record {
    result = result_or_zero (err e);
    error = some e;
    recorder = record_event (command_finished workspace_id raw none (some e) none none) recorder;
    world = w;
  }

  launched : Text → Text → List Text → Snapshot → Option (List Event) → W → Ran
  unfolding run_command record_event result_or_zero error_of post_error post_snapshot combined
  launched raw workspace_id parts before recorder w =
      let started = record_event (command_started workspace_id raw before) recorder in
      let (outcome, w₁) = run_command parts w in
      let (after, w₂) = machine.capture_snapshot w₁ in
      let r = result_or_zero outcome in
      record {
        result = r;
        error = combined (error_of outcome) (post_error after);
        recorder =
            record_event
              (command_finished workspace_id raw (some (r.exit_code, r.duration_ms))
                (error_of outcome) (post_error after) (post_snapshot after))
              started;
        world = w₂;
      }

  after_snapshot : Text → Text → List Text → Option (List Event) → Result Text Snapshot → W → Ran
  unfolding not_launched launched
  after_snapshot raw workspace_id parts recorder (err message) w =
      not_launched raw workspace_id (pre_snapshot_failed message) recorder w
  after_snapshot raw workspace_id parts recorder (ok before) w =
      launched raw workspace_id parts before recorder w

  -- RunCommandWithEvents.
  unfoldable pub run_command_with_events : Text → Text → Option (List Event) → W → Ran
  unfolding accepted_parts not_launched after_snapshot
  run_command_with_events raw workspace_id recorder w = elim (accepted_parts raw) [
    | err e ↦ not_launched raw workspace_id (refused e) recorder w
    | ok parts ↦
        let (before, w₁) = machine.capture_snapshot w in
        after_snapshot raw workspace_id parts recorder before w₁
  ]
