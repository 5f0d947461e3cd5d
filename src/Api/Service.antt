-- ===== src/Api/Service.antt =====
-- practiceService of services/api/internal/service/practice_service.go, over the interfaces of Ports:
-- its fields, and the calls by which a session ends and its cleanup is scheduled. Log lines are left
-- out, and so are the contexts that limit how long a call may take: a call that is cut off is an
-- error of the store or of the runner.
pub mod Loops
pub mod Access
pub mod Cleanup
pub mod Listing
use git_gym.Prelude.{ℕ, ◌+◌, ◌-◌, Bool, not, ◌||◌, Option, none, some, [], ltb, if◌then◌else◌}
use git_gym.Prelude.Text.{Text, is_empty}
use git_gym.Api.Domain.{
  PracticeSession, WorkspaceCleanupJob, Status, expired, orphaned, pending,
  practice_session_orphan_cleanup_grace,
}
use git_gym.Api.Errors.{
  Error, Out, ok, err, sentinel, wrapped, practice_service_configuration, practice_session_expired,
  practice_session_orphaned,
}
use git_gym.Api.Monad.{M, pure, fail, on_outcome, ◌>>=◌, ◌>>◌, require}
use git_gym.Api.Ports.{Store, RunnerClient, PracticeCatalog}
use git_gym.Api.Catalog.{new_fallback_practice_catalog}

-- `none` is a nil interface. `describe` is `err.Error()`.
pub record PracticeService (W Conn : Type 0) : Type 0 where
  pub store : Option (Store W)
  pub runner : Option (RunnerClient W Conn)
  pub catalog : Option (PracticeCatalog W)
  pub now : W → ℕ × W
  pub describe : Error → Text

-- NewPracticeService without a catalogue among its options.
unfoldable pub new_practice_service :
    {W Conn : Type 0}
    → Option (Store W)
    → Option (RunnerClient W Conn)
    → (W → ℕ × W)
    → (Error → Text)
    → PracticeService W Conn
unfolding new_fallback_practice_catalog
new_practice_service {W} store runner now describe = record {
  store = store;
  runner = runner;
  catalog = some (new_fallback_practice_catalog W);
  now = now;
  describe = describe;
}

abbrev pub not_configured : Error
not_configured = sentinel practice_service_configuration

-- The job that the service upserts: no id, no attempts.
unfoldable pub pending_job : ℕ → Text → Status → ℕ → WorkspaceCleanupJob
pending_job session_id workspace_id reason scheduled_at = record {
  id = 0;
  practice_session_id = session_id;
  workspace_id = workspace_id;
  reason = reason;
  scheduled_at = scheduled_at;
  status = pending;
  attempt_count = 0;
  last_error = [];
  created_at = 0;
  updated_at = 0;
}

first_end : Option ℕ → ℕ → Option ℕ
first_end none now = some now
first_end (some earlier) now = some earlier

-- What transitionSession writes.
unfoldable pub ended : Status → ℕ → PracticeSession → PracticeSession
unfolding first_end
ended status now session = record session {
  status = status;
  last_activity_at = now;
  ended_at = first_end session.ended_at now;
}

module _ {W Conn : Type 0} (s : PracticeService W Conn) where
  abbrev pub clock : M W ℕ
  clock w = let (t, w') = s.now w in ok t w'

  unfoldable pub transition_session : PracticeSession → Status → M W PracticeSession
  unfolding ended
  transition_session session status = do
    store ← require s.store not_configured
    now ← clock
    on_outcome (store.update_practice_session (ended status now session)) (λ e. fail (wrapped e))
        pure

  -- An error of the runner is logged, not returned.
  unfoldable pub fallback_workspace_cleanup : PracticeSession → Status → ℕ → M W (Unit {0})
  fallback_workspace_cleanup session reason scheduled_at w = elim s.runner [
    | none ↦ ok tt w
    | some runner ↦
        if is_empty session.runner_ref
        then ok tt w
        else (clock >>= λ now.
              on_outcome (runner.delete_workspace session.runner_ref reason (scheduled_at - now))
                (λ e. pure tt) pure)
            w
  ]

  unfoldable pub upsert_workspace_cleanup_job : PracticeSession → Status → ℕ → M W (Unit {0})
  unfolding fallback_workspace_cleanup pending_job
  upsert_workspace_cleanup_job session reason scheduled_at w = elim s.store [
    | none ↦ ok tt w
    | some store ↦
        on_outcome
          (store.upsert_workspace_cleanup_job
            (pending_job session.id session.runner_ref reason scheduled_at))
          (λ e. fallback_workspace_cleanup session reason scheduled_at) pure w
  ]

  -- It always returns an error; the value type is the caller's.
  unfoldable pub orphan_session : {A : Type 0} → PracticeSession → M W A
  unfolding transition_session upsert_workspace_cleanup_job
  orphan_session session = do
    updated ← transition_session session orphaned
    now ← clock
    upsert_workspace_cleanup_job updated orphaned (now + practice_session_orphan_cleanup_grace)
    fail (sentinel practice_session_orphaned)

  expire_session : PracticeSession → M W PracticeSession
  unfolding transition_session upsert_workspace_cleanup_job
  expire_session session = do
    updated ← transition_session session expired
    now ← clock
    upsert_workspace_cleanup_job updated expired now
    fail (sentinel practice_session_expired)

  -- The check of the clock, once the status says that the session has not ended.
  check_expiry : PracticeSession → M W PracticeSession
  unfolding expire_session
  check_expiry session = do
    now ← clock
    if ltb now session.expires_at then pure session else expire_session session

  available_in : Status → PracticeSession → M W PracticeSession
  unfolding check_expiry
  available_in expired session = fail (sentinel practice_session_expired)
  available_in orphaned session = fail (sentinel practice_session_orphaned)
  available_in _ session = check_expiry session

  unfoldable pub ensure_session_available : PracticeSession → M W PracticeSession
  unfolding available_in
  ensure_session_available session = available_in session.status session
