-- ===== src/Api/Service/Loops.antt =====
-- The loops of service/practice_session_reaper.go. A signal is a tick of the ticker or the end of the
-- context; what is logged is left out. `none` is a nil service.
use git_gym.Prelude.{ℕ, Option, none, some, List, [], ◌∷◌, if◌then◌else◌}
use git_gym.Prelude.Text.{ℤ, pos, non_positive, pos_part}
use git_gym.Api.Domain.{minute}
use git_gym.Api.Errors.{state}
use git_gym.Api.Service.{PracticeService}
use git_gym.Api.Service.Access.{expire_stale_practice_sessions}
use git_gym.Api.Service.Cleanup.{run_workspace_cleanup_due_jobs, reconcile_workspace_cleanup_jobs}

pub data Signal : Type 0 where
  tick : Signal
  done : Signal

abbrev default_practice_session_expiry_interval : ℕ
default_practice_session_expiry_interval = minute

abbrev default_workspace_cleanup_sweep_limit : ℤ
default_workspace_cleanup_sweep_limit = pos 20

-- What the ticker waits.
unfoldable pub loop_interval : ℤ → ℕ
loop_interval interval =
    if non_positive interval then default_practice_session_expiry_interval else pos_part interval

-- The `for` with its `select`.
unfoldable pub run_ticks : {W : Type 0} → (W → W) → List Signal → W → W
run_ticks sweep [] w = w
run_ticks sweep (done ∷ signals) w = w
run_ticks sweep (tick ∷ signals) w = run_ticks sweep signals (sweep w)

module _ {W Conn : Type 0} where
  expiry_sweep : PracticeService W Conn → W → W
  expiry_sweep s w = state (expire_stale_practice_sessions s w)

  cleanup_sweep : PracticeService W Conn → W → W
  cleanup_sweep s w = state (
      reconcile_workspace_cleanup_jobs s default_workspace_cleanup_sweep_limit
        (state (run_workspace_cleanup_due_jobs s default_workspace_cleanup_sweep_limit w)))

  unfoldable pub start_practice_session_expiry_loop :
      Option (PracticeService W Conn) → List Signal → W → W
  unfolding run_ticks expiry_sweep
  start_practice_session_expiry_loop none signals w = w
  start_practice_session_expiry_loop (some s) signals w =
      run_ticks (expiry_sweep s) signals (expiry_sweep s w)

  unfoldable pub start_workspace_cleanup_loop :
      Option (PracticeService W Conn) → List Signal → W → W
  unfolding run_ticks cleanup_sweep
  start_workspace_cleanup_loop none signals w = w
  start_workspace_cleanup_loop (some s) signals w =
      run_ticks (cleanup_sweep s) signals (cleanup_sweep s w)

-- What every sweep keeps holds after any signals.
pub run_ticks_lem :
    {W : Type 0} {P : W → Type 0} (sweep : W → W) (signals : List Signal) (w : W)
    → ((v : W) → P v → P (sweep v))
    → P w
    → P (run_ticks sweep signals w)
unfolding run_ticks
run_ticks_lem sweep [] w keeps h = h
run_ticks_lem sweep (done ∷ signals) w keeps h = h
run_ticks_lem sweep (tick ∷ signals) w keeps h =
    run_ticks_lem sweep signals (sweep w) keeps (keeps w h)
