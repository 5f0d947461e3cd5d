-- ===== src/Api/Migrate.antt =====
-- services/api/cmd/migrate/main.go. The table schema_migrations is the list of the names in it; the
-- connection, the rest of the database, the files and the order that the collation of the database
-- makes of names are parameters.
pub mod Outcome
pub mod Again
mod Examples
use git_gym.Prelude.{
  ℕ, suc, Bool, true, false, ◌||◌, not, Option, none, some, List, [], ◌∷◌, map, ◌==◌, ltb,
  if◌then◌else◌,
}
use git_gym.Prelude.Sort.{sort}
use git_gym.Prelude.Text.{Text, codes, text_eq, trim, is_empty}
use git_gym.Api.Errors.{Error, Out, ok, err, wrapped, foreign}
use git_gym.Api.Monad.{M, pure, fail, on_outcome, ◌>>=◌, ◌>>◌}

pub record State (R : Type 0) : Type 0 where
  pub recorded : List Text
  pub rest : R

-- `connect` is all up to the Ping, `answer` whether a statement on schema_migrations goes through,
-- `exec` a migration's statements, `base` the last part of a path, `less` the order of the bytes.
pub record Env (R : Type 0) : Type 0 where
  pub connect : M R (Unit {0})
  pub answer : M R (Unit {0})
  pub exec : Text → M R (Unit {0})
  pub table_exists : Text → M R Bool
  pub read_file : Text → Option Text
  pub glob : Option (List Text)
  pub base : Text → Text
  pub same_name : Text → Text → Bool
  pub less : Text → Text → Bool

-- What is printed of a migration; nothing is of one with an empty file.
pub data Step : Type 0 where
  skipped : Step
  baseline : Step
  blank : Step
  applied : Step

unfoldable pub is_recorded : (Text → Text → Bool) → Text → List Text → Bool
is_recorded same_name name [] = false
is_recorded same_name name (n ∷ names) = same_name n name || is_recorded same_name name names

-- The tables of the first migration.
abbrev pub expected_tables : List Text
expected_tables = map codes (
    "users" ∷ "auth_accounts" ∷ "user_sessions" ∷ "workspace_templates" ∷ "scenarios"
    ∷ "practice_sessions" ∷ "command_runs" ∷ "repo_snapshots" ∷ "session_events" ∷ "session_resets"
    ∷ [])

module _ {R : Type 0} (env : Env R) where
  abbrev pub on_rest : {A : Type 0} → M R A → M (State R) A
  on_rest call s = elim (call s.rest) [
    | ok a r ↦ ok a (record s { rest = r })
    | err e r ↦ err (wrapped e) (record s { rest = r })
  ]

  unfoldable pub should_check_initial_schema_baseline : Text → Bool
  unfolding text_eq
  should_check_initial_schema_baseline path = text_eq (env.base path) (codes "0001_initial.sql")

  unfoldable pub migration_applied : Text → M (State R) Bool
  unfolding is_recorded
  migration_applied name =
      on_rest env.answer >> λ s. ok (is_recorded env.same_name name s.recorded) s

  -- The name is the primary key.
  unfoldable pub record_migration : Text → M (State R) (Unit {0})
  unfolding is_recorded
  record_migration name = on_rest env.answer >> λ s.
      if is_recorded env.same_name name s.recorded
      then err (foreign (codes "Duplicate entry")) s
      else ok tt (record s { recorded = name ∷ s.recorded })

  unfoldable pub count_existing_tables : List Text → ℕ → M (State R) ℕ
  count_existing_tables [] count = pure count
  count_existing_tables (name ∷ names) count = on_rest (env.table_exists name) >>= λ exists.
      count_existing_tables names (if exists then suc count else count)

  run_query : Text → Text → M (State R) Step
  unfolding record_migration
  run_query path query =
      if is_empty query
      then pure blank
      else on_rest (env.exec query) >> (record_migration path >> pure applied)

  with_contents : Text → Option Text → M (State R) Step
  unfolding run_query trim
  with_contents path none = fail (wrapped (foreign (codes "read migration")))
  with_contents path (some contents) = run_query path (trim contents)

  unfoldable pub apply_file : Text → M (State R) Step
  unfolding with_contents
  apply_file path = with_contents path (env.read_file path)

  unfoldable pub with_existing : Text → ℕ → M (State R) Step
  unfolding record_migration apply_file
  with_existing path existing_count =
      if existing_count == 0
      then apply_file path
      else if existing_count == 10
      then record_migration path >> pure baseline
      else fail (foreign (codes "refusing to continue"))

  unfoldable pub migrate_one : Text → Bool → M (State R) Step
  unfolding with_existing apply_file should_check_initial_schema_baseline count_existing_tables
  migrate_one path true = pure skipped
  migrate_one path false =
      if should_check_initial_schema_baseline path
      then (count_existing_tables expected_tables 0 >>= with_existing path)
      else apply_file path

  unfoldable pub migrate_all : List Text → M (State R) (List Step)
  unfolding migration_applied migrate_one
  migrate_all [] = pure []
  migrate_all (path ∷ paths) = do
    is_applied ← migration_applied path
    step ← migrate_one path is_applied
    steps ← migrate_all paths
    pure (step ∷ steps)

  over_paths : Option (List Text) → M (State R) (List Step)
  unfolding migrate_all sort
  over_paths none = fail (wrapped (foreign (codes "list migrations")))
  over_paths (some []) = fail (foreign (codes "no migration files found under db/migrations"))
  over_paths (some (path ∷ paths)) = migrate_all (sort env.less (path ∷ paths))

  -- `main` behind MYSQL_DSN; CREATE TABLE IF NOT EXISTS leaves the names as they are.
  unfoldable pub with_dsn : M (State R) (List Step)
  unfolding over_paths
  with_dsn = on_rest env.connect >> (on_rest env.answer >> over_paths env.glob)

  unfoldable pub main : Text → M (State R) (List Step)
  unfolding with_dsn trim
  main dsn =
      if is_empty (trim dsn) then fail (foreign (codes "MYSQL_DSN is required")) else with_dsn
