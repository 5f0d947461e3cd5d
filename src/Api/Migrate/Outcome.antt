-- ===== src/Api/Migrate/Outcome.antt =====
-- What a run of the migrations (cmd/migrate/main.go) leaves recorded.
use git_gym.Prelude.{
  ℕ, ◌≡◌, refl, sym, ap, ◌∙◌, ◌⊎◌, inl, inr, Bool, true, false, Option, none, some, List, [], ◌∷◌,
  All, arith, ◌==◌, if◌then◌else◌,
}
use mathlib.Core.Path.{subst}
use git_gym.Prelude.Text.{Text, codes, trim, is_empty}
use git_gym.Api.Errors
use git_gym.Api.Errors.{Error, Out, ok, err}
use git_gym.Api.Monad.{M, ◌>>=◌}
use git_gym.Api.Migrate.{
  State, Env, Step, baseline, is_recorded, on_rest, should_check_initial_schema_baseline,
  migration_applied, record_migration, count_existing_tables, expected_tables, run_query,
  with_contents, apply_file, with_existing, migrate_one, migrate_all,
}

-- A chain that succeeds, split at its first call.
pub bind_ok :
    {W A B : Type 0} (m : M W A) (k : A → M W B) (w w' : W) (b : B)
    → (m >>= k) w ≡ ok b w'
    → (a : A) × (read : W) × (m w ≡ ok a read) × (k a read ≡ ok b w')
bind_ok {W} {A} {B} m k w w' b h = go (m w) refl h
  where
    go :
        (out : Out W A)
        → m w ≡ out
        → elim out [ ok a u ↦ k a u | err e u ↦ err e u ] ≡ ok b w'
        → (a : A) × (read : W) × (m w ≡ ok a read) × (k a read ≡ ok b w')
    go (ok a u) e q = (a, u, e, q)
    go (err e u) same q = absurd cc

pub bind_does :
    {W A B : Type 0} (m : M W A) (k : A → M W B) (w u w' : W) (a : A) (b : B)
    → m w ≡ ok a u
    → k a u ≡ ok b w'
    → (m >>= k) w ≡ ok b w'
bind_does m k w u w' a b h q = rw (◌>>=◌, h) q

module _ {R : Type 0} (env : Env R) where
  -- The file has no statement in it.
  abbrev pub is_blank_file : Text → Bool
  is_blank_file path = elim (env.read_file path) [
    | none ↦ false
    | some contents ↦ is_empty (trim contents)
  ]

  -- No name is lost.
  abbrev Grows : State R → State R → Type 0
  Grows s t =
      (n : Text)
      → is_recorded env.same_name n s.recorded ≡ true
      → is_recorded env.same_name n t.recorded ≡ true

  abbrev pub IsHandled : Text → State R → Type 0
  IsHandled path s =
      (is_recorded env.same_name path s.recorded ≡ true) ⊎ (is_blank_file path ≡ true)

  on_rest_ok :
      {A : Type 0} (call : M R A) (s t : State R) (a : A)
      → on_rest env call s ≡ ok a t
      → t.recorded ≡ s.recorded
  on_rest_ok {A} call s t a h = go (call s.rest) h
    where
      go :
          (out : Out R A)
          → elim out [
            | ok b r ↦ ok b (record s { rest = r })
            | err e r ↦ err (Errors.wrapped e) (record s { rest = r })
          ]
            ≡ ok a t
          → t.recorded ≡ s.recorded
      go (ok b r) q = ground arith
      go (err e r) q = absurd cc

  inserted :
      (path : Text) (e : Error) (s t : State R)
      → ◌≡◌ {A = Out (State R) Unit}
          (if is_recorded env.same_name path s.recorded
            then err e s
            else ok tt (record s { recorded = path ∷ s.recorded }))
          (ok tt t)
      → t.recorded ≡ path ∷ s.recorded
  inserted path e s t h = ground arith

  record_ok :
      (path : Text) (s t : State R)
      → record_migration env path s ≡ ok tt t
      → t.recorded ≡ path ∷ s.recorded
  unfolding record_migration
  record_ok path s t h =
      let (done, u, answered, q) = bind_ok (on_rest env env.answer) _ s t tt h in
      inserted path _ u t q ∙ ap (λ names. path ∷ names) (on_rest_ok env.answer s u done answered)

  -- What one migration that did not fail leaves: the names of before, with its own if it is new.
  abbrev Moves : Text → State R → State R → Type 0
  Moves path s t =
      ((t.recorded ≡ s.recorded) × (is_blank_file path ≡ true)) ⊎ (t.recorded ≡ path ∷ s.recorded)

  run_query_ok :
      (path query : Text) (s t : State R) (step : Step)
      → run_query env path query s ≡ ok step t
      → ((t.recorded ≡ s.recorded) × (is_empty query ≡ true)) ⊎ (t.recorded ≡ path ∷ s.recorded)
  unfolding run_query
  run_query_ok path [] s t step h = ground arith
  run_query_ok path (c ∷ query) s t step h =
      let (done, u, ran, q) = bind_ok (on_rest env (env.exec (c ∷ query))) _ s t step h in
      let (noted, v, wrote, end) = bind_ok (record_migration env path) _ u t step q in
      inr (
        ap State.recorded (ap Errors.state (sym end))
        ∙ (record_ok path u v wrote
            ∙ ap (λ names. path ∷ names) (on_rest_ok (env.exec (c ∷ query)) s u done ran)))

  apply_file_ok :
      (path : Text) (s t : State R) (step : Step)
      → apply_file env path s ≡ ok step t
      → Moves path s t
  unfolding apply_file with_contents
  apply_file_ok path s t step h = go (env.read_file path) refl h
    where
      go :
          (file : Option Text)
          → env.read_file path ≡ file
          → ◌≡◌ {A = Out (State R) Step} (with_contents env path file s) (ok step t)
          → Moves path s t
      go none e q = absurd cc
      go (some contents) e q = elim (run_query_ok path (trim contents) s t step q) [
        | inl (same, empty) ↦ inl (same, rw (is_blank_file, e) empty)
        | inr new ↦ inr new
      ]

  count_ok :
      (names : List Text) (count n : ℕ) (s t : State R)
      → count_existing_tables env names count s ≡ ok n t
      → t.recorded ≡ s.recorded
  unfolding count_existing_tables
  count_ok [] count n s t h = ground arith
  count_ok (name ∷ names) count n s t h =
      let (exists, u, asked, q) = bind_ok (on_rest env (env.table_exists name)) _ s t n h in
      count_ok names _ n u t q ∙ on_rest_ok (env.table_exists name) s u exists asked

  with_existing_ok :
      (path : Text) (count : ℕ) (s t : State R) (step : Step)
      → with_existing env path count s ≡ ok step t
      → Moves path s t
  unfolding with_existing
  with_existing_ok path count s t step h = go (count == 0) (count == 10) h
    where
      go :
          (none_there all_there : Bool)
          → (if none_there
                then apply_file env path
                else if all_there
                then record_migration env path >>= (λ _ u. ok baseline u)
                else (λ u. err (Errors.foreign (codes "refusing to continue")) u))
              s
            ≡ ok step t
          → Moves path s t
      go true all_there q = apply_file_ok path s t step q
      go false true q =
          let (noted, v, wrote, end) = bind_ok (record_migration env path) _ s t step q in
          inr (ap State.recorded (ap Errors.state (sym end)) ∙ record_ok path s v wrote)
      go false false q = absurd cc

  migrate_one_ok :
      (path : Text) (s t : State R) (step : Step)
      → migrate_one env path false s ≡ ok step t
      → Moves path s t
  unfolding migrate_one
  migrate_one_ok path s t step h = go (should_check_initial_schema_baseline env path) h
    where
      go :
          (first : Bool)
          → (if first
                then (count_existing_tables env expected_tables 0 >>= with_existing env path)
                else apply_file env path)
              s
            ≡ ok step t
          → Moves path s t
      go false q = apply_file_ok path s t step q
      go true q =
          let (n, u, counted, k) =
            bind_ok (count_existing_tables env expected_tables 0) _ s t step q in
          subst
            (λ names.
              ((t.recorded ≡ names) × (is_blank_file path ≡ true)) ⊎ (t.recorded ≡ path ∷ names))
            (count_ok expected_tables 0 n s u counted) (with_existing_ok path n u t step k)

  -- Nothing is lost, and the path needs no second run.
  abbrev StaysDone : Text → State R → State R → Type 0
  StaysDone path s t = Grows s t × IsHandled path t

  applied_ok :
      (path : Text) (s u : State R) (is_applied : Bool)
      → migration_applied env path s ≡ ok is_applied u
      → (is_recorded env.same_name path s.recorded ≡ is_applied) × (u.recorded ≡ s.recorded)
  unfolding migration_applied
  applied_ok path s u is_applied h =
      let (done, v, answered, q) = bind_ok (on_rest env env.answer) _ s u is_applied h in
      let same = on_rest_ok env.answer s v done answered in
      let end = read_ok (is_recorded env.same_name path v.recorded) is_applied v u q in
      (ap (is_recorded env.same_name path) (sym same) ∙ end.0, ap State.recorded (sym end.1) ∙ same)
    where
      read_ok :
          (b c : Bool) (v u : State R)
          → ◌≡◌ {A = Out (State R) Bool} (ok b v) (ok c u)
          → (b ≡ c) × (v ≡ u)
      read_ok b c v u h = ground arith

module _ {R : Type 0} (env : Env R) (same_refl : (n : Text) → env.same_name n n ≡ true) where
  moved : (path : Text) (s t : State R) → Moves env path s t → StaysDone env path s t
  unfolding is_recorded
  moved path s t (inl (same, empty)) = ((λ n h. ground arith), inr empty)
  moved path s t (inr new) = ((λ n h. ground arith), inl (ground (arith, same_refl path)))

  one_settles :
      (path : Text) (s u t : State R) (is_applied : Bool) (step : Step)
      → migration_applied env path s ≡ ok is_applied u
      → migrate_one env path is_applied u ≡ ok step t
      → StaysDone env path s t
  unfolding migrate_one
  one_settles path s u t true step h k =
      let (there, same) = applied_ok env path s u true h in
      let names = ap State.recorded (ap Errors.state (sym k)) ∙ same in
      (
        (λ n was. ap (is_recorded env.same_name n) names ∙ was),
        inl (ap (is_recorded env.same_name path) names ∙ there),
      )
  one_settles path s u t false step h k =
      let (missing, same) = applied_ok env path s u false h in
      let settled = moved path u t (migrate_one_ok env path u t step k) in
      ((λ n was. settled.0 n (ap (is_recorded env.same_name n) same ∙ was)), settled.1)

  still_so :
      (path : Text) (s t : State R) → Grows env s t → IsHandled env path s → IsHandled env path t
  still_so path s t grows (inl there) = inl (grows path there)
  still_so path s t grows (inr empty) = inr empty

  both :
      (path : Text) (paths : List Text) (s v x t : State R)
      → StaysDone env path s v
      → Grows env v x × All (λ p. IsHandled env p x) paths
      → x ≡ t
      → Grows env s t × All (λ p. IsHandled env p t) (path ∷ paths)
  both path paths s v x t first others end =
      subst (λ (y : State R). Grows env s y × All (λ p. IsHandled env p y) (path ∷ paths)) end
        ((λ n was. others.0 n (first.0 n was)), (still_so path v x others.0 first.1, others.1))

  pub paths_settle :
      (paths : List Text) (s t : State R) (steps : List Step)
      → migrate_all env paths s ≡ ok steps t
      → Grows env s t × All (λ path. IsHandled env path t) paths
  unfolding migrate_all
  paths_settle [] s t steps h = (
    (λ n was.
        ap (λ (v : State R). is_recorded env.same_name n v.recorded) (ap Errors.state (sym h))
        ∙ was),
    tt,
  )
  paths_settle (path ∷ paths) s t steps h =
      let (is_applied, u, asked, q) = bind_ok (migration_applied env path) _ s t steps h in
      let (step, v, ran, k) = bind_ok (migrate_one env path is_applied) _ u t steps q in
      let (rest, x, went, end) = bind_ok (migrate_all env paths) _ v t steps k in
      let first = one_settles path s u v is_applied step asked ran in
      let others = paths_settle paths v x rest went in
      both path paths s v x t first others (ap Errors.state end)
