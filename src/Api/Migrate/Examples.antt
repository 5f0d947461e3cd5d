-- ===== src/Api/Migrate/Examples.antt =====
-- The theorem on the migrations at a concrete database.
use git_gym.Prelude.{
  ℕ, ◌+◌, ◌≡◌, ◌⊎◌, refl, ap, true, false, if◌then◌else◌, Option, some, List, [], ◌∷◌, All,
}
use git_gym.Prelude.Text.{Text, codes, text_eq, text_eq_refl, text_eq→eq, trim}
use git_gym.Api.Errors.{ok}
use git_gym.Api.Migrate.{
  State, Env, Step, skipped, blank, main, should_check_initial_schema_baseline,
}
use git_gym.Api.Migrate.Outcome.{is_blank_file}
use git_gym.Api.Migrate.Again.{migrated_once}

-- A first migration with a statement, and a second one without.
abbrev file : Text → Option Text
file path = if text_eq path (codes "0001_initial.sql") then some (codes "CREATE") else some []

abbrev env : Env ℕ
env = record {
  connect = λ n. ok tt n;
  answer = λ n. ok tt n;
  exec = λ query n. ok tt (n + 1);
  table_exists = λ name n. ok false n;
  read_file = file;
  glob = some (codes "0002_seed.sql" ∷ codes "0001_initial.sql" ∷ []);
  base = λ p. p;
  same_name = text_eq;
  less = λ a b. text_eq a (codes "0001_initial.sql");
}

abbrev fresh : State ℕ
fresh = record { recorded = []; rest = 0 }

abbrev migrated : State ℕ
migrated = record { recorded = codes "0001_initial.sql" ∷ []; rest = 1 }

first_has_statements :
    (path : Text)
    → should_check_initial_schema_baseline env path ≡ true
    → is_blank_file env path ≡ false
unfolding should_check_initial_schema_baseline trim text_eq
first_has_statements path h = ap (is_blank_file env) (text_eq→eq path (codes "0001_initial.sql") h)

migrated_once_example :
    (again : List Step) × (main env (codes "dsn") migrated ≡ ok again migrated)
    × All (λ step. (step ≡ skipped) ⊎ (step ≡ blank)) again
unfolding main text_eq
migrated_once_example =
    migrated_once env text_eq_refl (codes "dsn") fresh migrated _ refl refl first_has_statements
      refl
