-- ===== src/Api/Domain.antt =====
-- services/api/internal/domain: the records that the store and the service exchange, and the
-- constants of services/api/internal/service/practice_service.go.
-- A `time.Time` is a number of nanoseconds on one clock, always in UTC; a status or reason string is
-- one of the constants that the code compares with, or another text.
use git_gym.Prelude.{ℕ, ◌*◌, ◌^◌, Bool, true, false, Option}
use git_gym.Prelude.Text.{Text}

pub data Status : Type 0 where
  active expired orphaned pending running failed succeeded : Status
  other : Text → Status

abbrev pub is_active : Status → Bool
is_active active = true
is_active _ = false

-- `status == "expired" || status == "orphaned"`, the two states that end a session.
abbrev pub is_ended : Status → Bool
is_ended expired = true
is_ended orphaned = true
is_ended _ = false

abbrev pub is_orphaned : Status → Bool
is_orphaned orphaned = true
is_orphaned _ = false

abbrev pub is_failed : Status → Bool
is_failed failed = true
is_failed _ = false

pub record PracticeSession : Type 0 where
  pub id : ℕ
  pub user_id : ℕ
  pub scenario_id : ℕ
  pub template_id : ℕ
  pub runner_ref : Text
  pub workspace_path_ref : Text
  pub status : Status
  pub started_at : ℕ
  pub ended_at : Option ℕ
  pub expires_at : ℕ
  pub last_activity_at : ℕ

pub record WorkspaceCleanupJob : Type 0 where
  pub id : ℕ
  pub practice_session_id : ℕ
  pub workspace_id : Text
  pub reason : Status
  pub scheduled_at : ℕ
  pub status : Status
  pub attempt_count : ℕ
  pub last_error : Text
  pub created_at : ℕ
  pub updated_at : ℕ

-- uint64 and uint32.
abbrev pub u64_mod : ℕ
u64_mod = 2 ^ 64

abbrev pub u32_mod : ℕ
u32_mod = 2 ^ 32

abbrev pub second : ℕ
second = 1_000_000_000

abbrev pub minute : ℕ
minute = 60 * second

abbrev pub practice_session_ttl : ℕ
practice_session_ttl = 120 * minute

abbrev pub practice_session_orphan_cleanup_grace : ℕ
practice_session_orphan_cleanup_grace = 10 * minute

abbrev pub workspace_cleanup_job_max_attempts : ℕ
workspace_cleanup_job_max_attempts = 5

abbrev pub workspace_cleanup_job_lease_timeout : ℕ
workspace_cleanup_job_lease_timeout = 15 * minute
