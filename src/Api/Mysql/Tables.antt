-- ===== src/Api/Mysql/Tables.antt =====
-- The tables of db/migrations that mysql.go reads and writes, and how a statement runs.
use git_gym.Prelude.{ℕ, Bool, Option, none, some, List, [], ◌∷◌, if◌then◌else◌}
use git_gym.Prelude.Text.{Text}
use git_gym.Api.Domain.{PracticeSession, WorkspaceCleanupJob}
use git_gym.Api.Errors.{Error, ok, err, wrapped}
use git_gym.Api.Monad.{M}

pub record CurrentUser : Type 0 where
  pub id : ℕ
  pub github_id : ℕ
  pub github_login : Text
  pub display_name : Text
  pub avatar_url : Option Text
  pub email : Option Text

pub record BrowserSession : Type 0 where
  pub id : ℕ
  pub user_id : ℕ
  pub session_token_hash : Text
  pub user_agent : Option Text
  pub ip_address : Option Text
  pub expires_at : ℕ
  pub revoked_at : Option ℕ

-- `faults` says of each statement to come whether it fails; beyond its end none does. `last_error` of
-- a job is NULL where it is empty, which is what mysql.go makes of it on both ways.
pub record Db : Type 0 where
  pub users : List CurrentUser
  pub user_sessions : List BrowserSession
  pub practice_sessions : List PracticeSession
  pub workspace_cleanup_jobs : List WorkspaceCleanupJob
  pub next_user : ℕ
  pub next_user_session : ℕ
  pub next_practice_session : ℕ
  pub next_workspace_cleanup_job : ℕ
  pub current_timestamp : ℕ
  pub faults : List (Option Error)

-- `ExecContext` and `QueryContext`.
abbrev pub statement : {A : Type 0} → (Db → A × Db) → M Db A
statement run db = elim db.faults [
  | [] ↦ (let (a, db') = run db in ok a db')
  | none ∷ rest ↦ (let (a, db') = run (record db { faults = rest }) in ok a db')
  | some e ∷ rest ↦ err (wrapped e) (record db { faults = rest })
]

-- What a rolled-back transaction leaves: the tables of the start, but the statements have been tried.
abbrev pub rolled_back : Db → Db → Db
rolled_back before after = record before { faults = after.faults }

-- `BeginTx`, the body, and `Commit`, with the deferred `Rollback`.
abbrev pub transaction : {A : Type 0} → M Db A → M Db A
transaction {A} body db = elim (statement (λ d. (tt, d)) db) [
  | err e db' ↦ err e db'
  | ok _ begun ↦ elim (body begun) [
    | err e db' ↦ err e (rolled_back begun db')
    | ok a db' ↦ elim (statement (λ d. (tt, d)) db') [
      | err e db'' ↦ err e (rolled_back begun db'')
      | ok _ db'' ↦ ok a db''
    ]
  ]
]

-- `UPDATE … WHERE`.
abbrev pub update_where {ℓ} : {R : Type ℓ} → (R → Bool) → (R → R) → List R → List R
update_where p f [] = []
update_where p f (r ∷ rows) = (if p r then f r else r) ∷ update_where p f rows

-- `LIMIT 1`.
abbrev pub first_of {ℓ} : {R : Type ℓ} → List R → Option R
first_of [] = none
first_of (r ∷ rows) = some r

-- `nullableString`.
abbrev pub nullable_string : Text → Option Text
nullable_string [] = none
nullable_string (c ∷ s) = some (c ∷ s)
