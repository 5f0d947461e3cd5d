-- ===== src/Api/Mysql/Sessions.antt =====
-- The methods of MySQLStore (mysql.go) on practice_sessions.
use git_gym.Prelude.{
  ℕ, ◌+◌, Bool, true, false, not, ◌&&◌, ◌||◌, Option, none, some, List, [], ◌∷◌, ◌++◌, ltb, leb,
  ◌==◌, if◌then◌else◌, keep, take,
}
use git_gym.Prelude.Sort.{sort}
use git_gym.Prelude.Text.{text_eq, ℤ, non_positive, pos_part}
use git_gym.Api.Domain.{
  PracticeSession, WorkspaceCleanupJob, Status, active, expired, orphaned, pending, running, failed,
  succeeded, other, is_active, is_ended,
}
use git_gym.Api.Errors.{sentinel, practice_session_not_found}
use git_gym.Api.Monad.{M, pure, fail, ◌>>=◌, ◌>>◌}
use git_gym.Api.Mysql.Tables.{Db, statement, update_where, first_of}

unfoldable pub create_practice_session : PracticeSession → M Db PracticeSession
create_practice_session session = statement λ db.
    let created = record session { id = db.next_practice_session } in
    (
      created,
      record db {
        practice_sessions = db.practice_sessions ++ created ∷ [];
        next_practice_session = db.next_practice_session + 1;
      },
    )

-- `ORDER BY started_at DESC, id DESC`.
unfoldable pub is_later : PracticeSession → PracticeSession → Bool
is_later a b = if a.started_at == b.started_at then ltb b.id a.id else ltb b.started_at a.started_at

found : Option PracticeSession → M Db PracticeSession
found none = fail (sentinel practice_session_not_found)
found (some session) = pure session

unfoldable pub current_practice_session : ℕ → M Db PracticeSession
unfolding is_later found
current_practice_session user_id = do
  row ←
      statement
        λ db. (first_of (sort is_later (keep (λ r. r.user_id == user_id) db.practice_sessions)), db)
  found row

unfoldable pub practice_session_by_id : ℕ → M Db PracticeSession
unfolding found
practice_session_by_id session_id = do
  row ← statement λ db. (first_of (keep (λ r. r.id == session_id) db.practice_sessions), db)
  found row

status_eq : Status → Status → Bool
unfolding text_eq
status_eq active active = true
status_eq expired expired = true
status_eq orphaned orphaned = true
status_eq pending pending = true
status_eq running running = true
status_eq failed failed = true
status_eq succeeded succeeded = true
status_eq (other s) (other t) = text_eq s t
status_eq _ _ = false

unfoldable pub time_eq : Option ℕ → Option ℕ → Bool
time_eq none none = true
time_eq (some a) (some b) = a == b
time_eq _ _ = false

-- What the UPDATE of updatePracticeSessionQuery writes.
unfoldable pub with_lifecycle : PracticeSession → PracticeSession → PracticeSession
with_lifecycle session r = record r {
  status = session.status;
  ended_at = session.ended_at;
  last_activity_at = session.last_activity_at;
}

-- A row counts as affected if a column gets a new value; the driver asks for this count unless the
-- DSN says `clientFoundRows`.
unfoldable pub changes : PracticeSession → PracticeSession → Bool
unfolding status_eq time_eq
changes session r =
    r.id == session.id
    && not (
        status_eq r.status session.status
        && (time_eq r.ended_at session.ended_at && r.last_activity_at == session.last_activity_at))

abbrev pub is_none : List PracticeSession → Bool
is_none [] = true
is_none (r ∷ rows) = false

unfoldable pub update_practice_session : PracticeSession → M Db PracticeSession
unfolding with_lifecycle changes
update_practice_session session = do
  unaffected ← statement λ db. (
    is_none (keep (changes session) db.practice_sessions),
    record db {
      practice_sessions =
          update_where (λ r. r.id == session.id) (with_lifecycle session) db.practice_sessions;
    },
  )
  if unaffected then fail (sentinel practice_session_not_found) else pure session

coalesce : Option ℕ → ℕ → Option ℕ
coalesce none at = some at
coalesce (some earlier) at = some earlier

unfoldable pub expired_row : ℕ → PracticeSession → PracticeSession
unfolding coalesce
expired_row ended_at r = record r {
  status = expired;
  ended_at = coalesce r.ended_at ended_at;
  last_activity_at = ended_at;
}

abbrev is_expired : Status → Bool
is_expired expired = true
is_expired _ = false

-- The WHERE of expirePracticeSessionsQuery, and that of expiredPracticeSessionsLookupQuery.
unfoldable pub expires : ℕ → PracticeSession → Bool
expires before r = is_active r.status && leb r.expires_at before

unfoldable pub expired_at : ℕ → PracticeSession → Bool
unfolding time_eq
expired_at ended_at r =
    is_expired r.status && (time_eq r.ended_at (some ended_at) && r.last_activity_at == ended_at)

unfoldable pub expire_practice_sessions : ℕ → ℕ → M Db (List PracticeSession)
unfolding expired_row expires expired_at
expire_practice_sessions before ended_at = do
  statement λ db. (
    tt,
    record db {
      practice_sessions = update_where (expires before) (expired_row ended_at) db.practice_sessions;
    },
  )
  statement λ db. (keep (expired_at ended_at) db.practice_sessions, db)

-- `wcj.id IS NULL` behind the LEFT JOIN.
abbrev pub has_job : List WorkspaceCleanupJob → PracticeSession → Bool
has_job [] r = false
has_job (job ∷ jobs) r = job.practice_session_id == r.id || has_job jobs r

unfoldable pub list_practice_sessions_missing_workspace_cleanup_job :
    ℤ → M Db (List PracticeSession)
list_practice_sessions_missing_workspace_cleanup_job limit =
    if non_positive limit
    then pure []
    else (statement λ db. (
      take (pos_part limit) (
          keep (λ r. is_ended r.status && not (has_job db.workspace_cleanup_jobs r))
            db.practice_sessions),
      db,
    ))
