-- ===== src/Api/Mysql/Refinement/Changes.antt =====
-- Changes of one job, in the rows (mysql.go) and in the map of the store in memory.
use git_gym.Prelude.{ℕ, ◌≡◌, refl, inl, inr, true, false, none, [], arith, ◌==◌, Option-cases}
use git_gym.Prelude.Map.{lookup, values, lookup-insert}
use git_gym.Api.Domain.{WorkspaceCleanupJob}
use git_gym.Api.Errors.{Error, err, state}
use git_gym.Api.Store.State.{MemoryStore}
use git_gym.Api.Store.Jobs.{upsert_workspace_cleanup_job as memory_upsert, change_job}
use git_gym.Api.Store.Invariant.{JobsInv}
use git_gym.Api.Store.Lifecycle.{}
use git_gym.Api.Mysql.Tables.{update_where}
use git_gym.Api.Mysql.Jobs.{any_row, of_session, upserted, inserted, rewritten}
use git_gym.Api.Mysql.Refinement.Rows.{
  keys-insert, values-update_where, any_row-true, any_row-false, values-insert_new,
}

-- A job changed in place under its id, or a miss.
pub change_rows :
    (id : ℕ) (f : WorkspaceCleanupJob → WorkspaceCleanupJob) (a : Unit {0}) (e : Error)
    (s : MemoryStore)
    → JobsInv s
    → values (state (change_job (err e s) id (lookup id s.cleanup_jobs) f a s)).cleanup_jobs
      ≡ update_where (λ r. r.id == id) f (values s.cleanup_jobs)
change_rows id f a e s v = elim (Option-cases (lookup id s.cleanup_jobs)) [
  | inl missing ↦ rw missing (
      values-update_where (λ r. r.id == id) f s.cleanup_jobs s.cleanup_jobs refl v.unique
        (λ k r at. ground (arith, v.filed k r at)))
  | inr (old, there) ↦ rw there (
      values-update_where (λ r. r.id == id) f s.cleanup_jobs _
        (keys-insert id (f old) s.cleanup_jobs (ground arith)) v.unique
        (λ k r at. ground (arith, v.filed k r at, lookup-insert id k (f old) s.cleanup_jobs)))
]

next_missing : (s : MemoryStore) → JobsInv s → lookup s.next_cleanup_job_id s.cleanup_jobs ≡ none
next_missing s v = elim (Option-cases (lookup s.next_cleanup_job_id s.cleanup_jobs)) [
  | inl missing ↦ missing
  | inr (r, at) ↦ absurd (let filed = v.filed s.next_cleanup_job_id r at in omega (arith, filed.2))
]

pub upsert_rows :
    (wall : ℕ) (job : WorkspaceCleanupJob) (s : MemoryStore)
    → JobsInv s
    → job.attempt_count ≡ 0
    → job.last_error ≡ []
    → values (state (memory_upsert wall job s)).cleanup_jobs
      ≡ upserted s.next_cleanup_job_id wall job (values s.cleanup_jobs)
unfolding memory_upsert upserted
upsert_rows wall job s v no_attempts no_error =
    let p = of_session job.practice_session_id in
    elim (Option-cases (lookup job.practice_session_id s.cleanup_job_by_session)) [
      | inl missing ↦
          let none_there : any_row p (values s.cleanup_jobs) ≡ false =
            any_row-false p s.cleanup_jobs v.unique (λ k r at. ground (arith, v.filed k r at)) in
          let gap : lookup s.next_cleanup_job_id s.cleanup_jobs ≡ none = next_missing s v in
          rw (none_there, missing, memory_upsert)
            (ground (
              arith,
              values-insert_new s.next_cleanup_job_id (inserted s.next_cleanup_job_id wall job)
                  s.cleanup_jobs gap,
            ))
      | inr (k, there) ↦
          let (old, at, session) = v.indexed job.practice_session_id k there in
          let hit : any_row p (values s.cleanup_jobs) ≡ true =
            any_row-true p s.cleanup_jobs k old at (ground arith) in
          rw (hit, there, memory_upsert)
            (rw at (
              values-update_where p (rewritten wall job) s.cleanup_jobs _
                (keys-insert k (rewritten wall job old) s.cleanup_jobs (ground arith)) v.unique
                (λ j r found. ground (
                  arith,
                  v.filed j r found,
                  lookup-insert k j (rewritten wall job old) s.cleanup_jobs,
                ))))
    ]
