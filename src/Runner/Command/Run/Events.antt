-- ===== src/Runner/Command/Run/Events.antt =====
-- What RunCommandWithEvents of services/runner/internal/engine/commands.go records, and what it runs.
use git_gym.Prelude.{
  ◌≡◌, ◌≢◌, refl, ◌⊎◌, inl, inr, ap, sym, ◌∙◌, true, Option, none, some, List, [], ◌∷◌, ◌++◌, arith,
}
use git_gym.Prelude.Text.{Text, codes, text_eq, text_eq→eq, pos}
use git_gym.Prelude.Result.{Result, ok, err, Result-cases}
use mathlib.Core.List.{append_assoc}
use mathlib.Core.Path.{subst}
use git_gym.Runner.Command.Parse.{CommandError, parse_command, validate_command_policy}
use git_gym.Runner.Command.Run.{
  Machine, Snapshot, Event, EngineError, command_started, command_finished, accepted_parts,
  run_command_with_events, Ran, error_of, post_error, post_snapshot, refused, pre_snapshot_failed,
  combined, after_snapshot, run_command, CommandResult, result_or_zero, outcome_of,
}

-- A command that starts with `git` is accepted.
git_accepted :
    (raw : Text) (args : List Text)
    → parse_command raw ≡ ok (codes "git" ∷ args)
    → accepted_parts raw ≡ ok (codes "git" ∷ args)
unfolding accepted_parts validate_command_policy text_eq
git_accepted raw args h = rw h refl

abbrev pub no_result : CommandResult
no_result = record { stdout = []; stderr = []; exit_code = pos 0; duration_ms = 0 }

-- A command line that is accepted is what it parses to, and its first word is `git`.
pub accepted_parts_ok :
    (raw : Text) (parts : List Text)
    → accepted_parts raw ≡ ok parts
    → (parse_command raw ≡ ok parts) × ((args : List Text) × (parts ≡ codes "git" ∷ args))
unfolding accepted_parts validate_command_policy
accepted_parts_ok raw parts h = go (parse_command raw) refl
  where
    go :
        (r : Result CommandError (List Text))
        → parse_command raw ≡ r
        → (parse_command raw ≡ ok parts) × ((args : List Text) × (parts ≡ codes "git" ∷ args))
    go (err e) p = absurd (ground (arith, p))
    go (ok []) p = absurd (ground (arith, p))
    go (ok (command ∷ args)) p =
        let git : text_eq command (codes "git") ≡ true = ground (arith, p) in
        let same : parts ≡ command ∷ args = ground (arith, p, git) in
        (
          p ∙ ap ok (sym same),
          (args, same ∙ ap (λ c. c ∷ args) (text_eq→eq command (codes "git") git)),
        )

module _ {W : Type 0} (machine : Machine W) (raw workspace_id : Text) (events : List Event) where
  -- The line is not a `git` command, and the machine was not touched; or it is one, the first
  -- snapshot fails, and nothing but this snapshot was done.
  abbrev pub NothingRan : EngineError → W → W → Type 0
  NothingRan e w w' =
      (((args : List Text) → parse_command raw ≢ ok (codes "git" ∷ args)) × (w' ≡ w))
      ⊎ ((args : List Text) × (message : Text) × (parse_command raw ≡ ok (codes "git" ∷ args))
          × ((machine.capture_snapshot w).0 ≡ err message)
          × (e ≡ pre_snapshot_failed message)
          × (w' ≡ (machine.capture_snapshot w).1))

  -- The call ended before it started a process: one event, with the error that is returned.
  abbrev pub IsRefused : Ran machine → W → Type 0
  IsRefused r w =
      (e : EngineError) × (r.error ≡ some e)
      × (r.result ≡ no_result)
      × (r.recorder
          ≡ some (events ++ command_finished workspace_id raw none (some e) none none ∷ []))
      × NothingRan e w r.world

  -- What the process gives that is started behind the first snapshot, and the world at its end.
  abbrev pub outcome_at : List Text → W → Result EngineError CommandResult
  outcome_at args w =
      let p = (machine.start_process (codes "git" ∷ args) (machine.capture_snapshot w).1).0 in
      outcome_of p p.end

  abbrev pub ended_at : List Text → W → W
  ended_at args w = (machine.start_process (codes "git" ∷ args) (machine.capture_snapshot w).1).1

  -- The call started a process for the arguments: two events, the second with the result, the error
  -- of the command and what the second snapshot gave; the error that is returned joins the two errors.
  abbrev pub IsLaunched : Ran machine → W → Type 0
  IsLaunched r w =
      (args : List Text) × (before : Snapshot) × (command_error : Option EngineError)
      × (snapshot_error : Option EngineError) × (after : Option Snapshot) × (parse_command raw
          ≡ ok (codes "git" ∷ args))
      × ((machine.capture_snapshot w).0 ≡ ok before)
      × (command_error ≡ error_of (outcome_at args w))
      × (r.result ≡ result_or_zero (outcome_at args w))
      × (snapshot_error ≡ post_error (machine.capture_snapshot (ended_at args w)).0)
      × (after ≡ post_snapshot (machine.capture_snapshot (ended_at args w)).0)
      × (r.error ≡ combined command_error snapshot_error)
      × (r.world ≡ (machine.capture_snapshot (ended_at args w)).1)
      × (r.recorder
          ≡ some (
              events
              ++ command_started workspace_id raw before
                ∷ command_finished workspace_id raw
                    (some (r.result.exit_code, r.result.duration_ms)) command_error snapshot_error
                    after
                ∷ []))

  refused_lem :
      (e : CommandError) (w : W)
      → accepted_parts raw ≡ err e
      → IsRefused (run_command_with_events machine raw workspace_id (some events) w) w
  unfolding run_command_with_events
  refused_lem e w h =
      let other : (args : List Text) → parse_command raw ≢ ok (codes "git" ∷ args) =
        λ args p. ground (arith, h, git_accepted raw args p) in
      rw (h, run_command_with_events) (refused e, refl, refl, refl, inl (other, refl))

  snapshot_failed :
      (args : List Text) (message : Text) (w : W)
      → parse_command raw ≡ ok (codes "git" ∷ args)
      → (machine.capture_snapshot w).0 ≡ err message
      → IsRefused
          (after_snapshot machine raw workspace_id
            (codes "git" ∷ args)
            (some events)
            (err message)
            (machine.capture_snapshot w).1)
          w
  unfolding after_snapshot
  snapshot_failed args message w p c =
      (pre_snapshot_failed message, refl, refl, refl, inr (args, message, p, c, refl, refl))

  run_accepted :
      (parts : List Text) (w : W)
      → accepted_parts raw ≡ ok parts
      → run_command_with_events machine raw workspace_id (some events) w
        ≡ after_snapshot machine raw workspace_id parts
            (some events)
            (machine.capture_snapshot w).0
            (machine.capture_snapshot w).1
  unfolding run_command_with_events
  run_accepted parts w h = rw (h, run_command_with_events)

  launched_lem :
      (args : List Text) (before : Snapshot) (w : W)
      → parse_command raw ≡ ok (codes "git" ∷ args)
      → (machine.capture_snapshot w).0 ≡ ok before
      → IsLaunched
          (after_snapshot machine raw workspace_id
            (codes "git" ∷ args)
            (some events)
            (ok before)
            (machine.capture_snapshot w).1)
          w
  unfolding after_snapshot run_command
  launched_lem args before w p c = (
    args,
    before,
    error_of (outcome_at args w),
    post_error (machine.capture_snapshot (ended_at args w)).0,
    post_snapshot (machine.capture_snapshot (ended_at args w)).0,
    p,
    c,
    refl,
    refl,
    refl,
    refl,
    refl,
    refl,
    ap some (append_assoc events (command_started workspace_id raw before ∷ []) (_ ∷ [])),
  )

  accepted_lem :
      (args : List Text) (w : W)
      → accepted_parts raw ≡ ok (codes "git" ∷ args)
      → parse_command raw ≡ ok (codes "git" ∷ args)
      → let r = run_command_with_events machine raw workspace_id (some events) w in
        IsRefused r w ⊎ IsLaunched r w
  accepted_lem args w h p =
      let at = λ (o : Result Text Snapshot).
        after_snapshot machine raw workspace_id (codes "git" ∷ args) (some events) o
          (machine.capture_snapshot w).1 in
      rw (run_accepted (codes "git" ∷ args) w h)
        (elim (Result-cases (machine.capture_snapshot w).0) [
          | inl (before, c) ↦
              subst (λ o. IsRefused (at o) w ⊎ IsLaunched (at o) w) (sym c)
                (inr (launched_lem args before w p c))
          | inr (message, c) ↦
              subst (λ o. IsRefused (at o) w ⊎ IsLaunched (at o) w) (sym c)
                (inl (snapshot_failed args message w p c))
        ])

  -- A call of RunCommandWithEvents with a recorder either returns an error and no result and adds
  -- one `command_finished` event with this error, and then the line is not a `git` command and the
  -- machine is as it was, or the first snapshot failed and nothing else was done; or the line parses
  -- to a `git` command and the first snapshot works, the process is started, and the call adds a
  -- `command_started` and a `command_finished` event, the latter with the result and error of the
  -- process and what the second snapshot gave, and returns these errors together.
  pub run_command_with_events_records :
      (w : W)
      → let r = run_command_with_events machine raw workspace_id (some events) w in
        IsRefused r w ⊎ IsLaunched r w
  run_command_with_events_records w = elim (Result-cases (accepted_parts raw)) [
    | inr (e, h) ↦ inl (refused_lem e w h)
    | inl (parts, h) ↦
        let (p, (args, same)) = accepted_parts_ok raw parts h in
        accepted_lem args w (h ∙ ap ok same) (p ∙ ap ok same)
  ]
