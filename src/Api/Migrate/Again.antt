-- ===== src/Api/Migrate/Again.antt =====
-- What a run of the migrations (cmd/migrate/main.go) leaves for the next one.
use git_gym.Prelude.{
  ◌≡◌, refl, ap, ◌∙◌, ◌⊎◌, inl, inr, Bool, true, false, Bool-cases, Option, none, some, List, [],
  ◌∷◌, All, arith,
}
use git_gym.Prelude.Sort.{sort}
use git_gym.Prelude.Text.{Text, trim, is_empty}
use git_gym.Api.Errors.{ok}
use git_gym.Api.Migrate.{
  State, Env, Step, skipped, blank, is_recorded, on_rest, should_check_initial_schema_baseline,
  migration_applied, run_query, with_contents, apply_file, migrate_one, migrate_all, main,
  over_paths, with_dsn,
}
use git_gym.Api.Migrate.Outcome.{bind_ok, bind_does, is_blank_file, IsHandled, paths_settle}

module _ {R : Type 0} (env : Env R) (same_refl : (n : Text) → env.same_name n n ≡ true) where
  module _ (t : State R) (answers : env.answer t.rest ≡ ok tt t.rest)
      (has_statements : (path : Text)
        → should_check_initial_schema_baseline env path ≡ true
        → is_blank_file env path ≡ false) where
    IsIdle : Step → Type 0
    IsIdle step = (step ≡ skipped) ⊎ (step ≡ blank)

    applied_again :
        (path : Text) (is_applied : Bool)
        → is_recorded env.same_name path t.recorded ≡ is_applied
        → migration_applied env path t ≡ ok is_applied t
    unfolding migration_applied
    applied_again path is_applied h =
        bind_does (on_rest env env.answer) _ t t t tt is_applied (ground (arith, answers))
          (ap (λ b. ok b t) h)

    blank_again :
        (path : Text) → is_blank_file env path ≡ true → migrate_one env path false t ≡ ok blank t
    unfolding migrate_one apply_file
    blank_again path empty = elim (Bool-cases (should_check_initial_schema_baseline env path)) [
      | inl first ↦ absurd (ground (arith, has_statements path first))
      | inr later ↦ rw later (go (env.read_file path) empty)
    ]
      where
        go :
            (file : Option Text)
            → ◌≡◌ {A = Bool}
                (elim file [ none ↦ false | some contents ↦ is_empty (trim contents) ])
                true
            → with_contents env path file t ≡ ok blank t
        go none h = absurd cc
        go (some contents) h = with_blank (trim contents) h
          where
            with_blank :
                (query : Text) → is_empty query ≡ true → run_query env path query t ≡ ok blank t
            with_blank [] k = refl
            with_blank (c ∷ query) k = absurd cc

    one_again :
        (path : Text)
        → IsHandled env path t
        → (is_applied : Bool) × (step : Step) × (migration_applied env path t ≡ ok is_applied t)
          × (migrate_one env path is_applied t ≡ ok step t)
          × IsIdle step
    unfolding IsIdle migrate_one
    one_again path (inl there) = (true, skipped, applied_again path true there, refl, inl refl)
    one_again path (inr empty) = elim (Bool-cases (is_recorded env.same_name path t.recorded)) [
      | inl there ↦ (true, skipped, applied_again path true there, refl, inl refl)
      | inr missing ↦
          (false, blank, applied_again path false missing, blank_again path empty, inr refl)
    ]

    paths_again :
        (paths : List Text)
        → All (λ path. IsHandled env path t) paths
        → (steps : List Step) × (migrate_all env paths t ≡ ok steps t) × All IsIdle steps
    unfolding migrate_all
    paths_again [] handled = ([], refl, tt)
    paths_again (path ∷ paths) handled =
        let (is_applied, step, asked, ran, idle) = one_again path handled.0 in
        let (steps, went, others) = paths_again paths handled.1 in
        (
          step ∷ steps,
          bind_does (migration_applied env path) _ t t t is_applied (step ∷ steps) asked (
              bind_does (migrate_one env path is_applied) _ t t t step (step ∷ steps) ran
                (bind_does (migrate_all env paths) _ t t t steps (step ∷ steps) went refl)),
          (idle, others),
        )

  over_ok :
      (globbed : Option (List Text)) (s t : State R) (steps : List Step)
      → over_paths env globbed s ≡ ok steps t
      → (path : Text) × (paths : List Text) × (globbed ≡ some (path ∷ paths))
        × (migrate_all env (sort env.less (path ∷ paths)) s ≡ ok steps t)
  unfolding over_paths
  over_ok none s t steps h = absurd cc
  over_ok (some []) s t steps h = absurd cc
  over_ok (some (path ∷ paths)) s t steps h = (path, paths, refl, h)

  with_dsn_ok :
      (s t : State R) (steps : List Step)
      → with_dsn env s ≡ ok steps t
      → (path : Text) × (paths : List Text) × (env.glob ≡ some (path ∷ paths))
        × All (λ p. IsHandled env p t) (sort env.less (path ∷ paths))
  unfolding with_dsn
  with_dsn_ok s t steps h =
      let (opened, u, connected, q) = bind_ok (on_rest env env.connect) _ s t steps h in
      let (done, v, answered, k) = bind_ok (on_rest env env.answer) _ u t steps q in
      let (path, paths, globbed, ran) = over_ok env.glob v t steps k in
      (
        path,
        paths,
        globbed,
        (paths_settle env same_refl (sort env.less (path ∷ paths)) v t steps ran).1,
      )

  main_ok :
      (dsn : Text) (s t : State R) (steps : List Step)
      → main env dsn s ≡ ok steps t
      → (is_empty (trim dsn) ≡ false) × (with_dsn env s ≡ ok steps t)
  unfolding main
  main_ok dsn s t steps h = ground (arith)

  with_dsn_again :
      (t : State R) (steps : List Step) (globbed : Option (List Text)) (path : Text)
      (paths : List Text)
      → env.connect t.rest ≡ ok tt t.rest
      → env.answer t.rest ≡ ok tt t.rest
      → env.glob ≡ some (path ∷ paths)
      → migrate_all env (sort env.less (path ∷ paths)) t ≡ ok steps t
      → with_dsn env t ≡ ok steps t
  unfolding with_dsn over_paths
  with_dsn_again t steps globbed path paths connects answers files ran =
      bind_does (on_rest env env.connect) _ t t t tt steps (ground (arith, connects)) (
        bind_does (on_rest env env.answer) _ t t t tt steps (ground (arith, answers))
          (ap (λ g. over_paths env g t) files ∙ ran))

  -- Where a name is the same as itself for the database, where the first migration has a statement
  -- in its file, and where the connection and the statements on schema_migrations succeed after it
  -- and change nothing, a second run after a successful one succeeds as well, leaves the database as
  -- it is, and each migration is skipped or has an empty file.
  pub migrated_once :
      (dsn : Text) (s t : State R) (steps : List Step)
      → env.connect t.rest ≡ ok tt t.rest
      → env.answer t.rest ≡ ok tt t.rest
      → ((path : Text)
          → should_check_initial_schema_baseline env path ≡ true
          → is_blank_file env path ≡ false)
      → main env dsn s ≡ ok steps t
      → (again : List Step) × (main env dsn t ≡ ok again t)
        × All (λ step. (step ≡ skipped) ⊎ (step ≡ blank)) again
  unfolding main IsIdle
  migrated_once dsn s t steps connects answers has_statements h =
      let (there, ran) = main_ok dsn s t steps h in
      let (path, paths, files, handled) = with_dsn_ok s t steps ran in
      let (again, went, idle) =
        paths_again t answers has_statements (sort env.less (path ∷ paths)) handled in
      (
        again,
        rw there (with_dsn_again t again env.glob path paths connects answers files went),
        idle,
      )
