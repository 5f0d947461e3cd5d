-- ===== src/Api/Mysql/Refinement/Rows.antt =====
-- A map of the store in memory and a table with the same rows.
use git_gym.Prelude.{
  ℕ, ◌≡◌, refl, ◌∙◌, Bool, true, false, none, some, List, [], ◌∷◌, ◌++◌, arith, if◌then◌else◌, All,
  keep,
}
use git_gym.Prelude.Map.{lookup, insert, has, values, UniqueKeys, lookup-insert}
use git_gym.Api.Domain.{WorkspaceCleanupJob}
use git_gym.Api.Store.Sessions.{keys}
use git_gym.Api.Store.Jobs.{claim_loop, claimed_job}
use git_gym.Api.Mysql.Tables.{update_where}
use git_gym.Api.Mysql.Jobs.{any_row}

pub keep-ext :
    {A : Type 0} (p q : A → Bool) → ((a : A) → p a ≡ q a) → (xs : List A) → keep p xs ≡ keep q xs
keep-ext p q h [] = refl
keep-ext p q h (x ∷ xs) = ground (arith, keep-ext p q h xs, h x)

pub keys-insert :
    {V : Type 0} (k : ℕ) (v : V) (m : List (ℕ × V)) → has k m ≡ true → keys (insert k v m) ≡ keys m
unfolding keys insert lookup
keys-insert k v [] h = ground arith
keys-insert k v ((j, w) ∷ m) h = ground (arith, keys-insert k v m)

pub has-insert :
    {V : Type 0} (j k : ℕ) (v : V) (m : List (ℕ × V)) → has j m ≡ true → has j (insert k v m) ≡ true
has-insert j k v m h = ground (arith, lookup-insert k j v m)

pub keys-claim_loop :
    (now : ℕ) (due : List WorkspaceCleanupJob) (m : List (ℕ × WorkspaceCleanupJob))
    → All (λ job. has job.id m ≡ true) due
    → keys (claim_loop now due m) ≡ keys m
unfolding claim_loop
keys-claim_loop now [] m all = refl
keys-claim_loop now (job ∷ due) m all =
    keys-claim_loop now due (insert job.id (claimed_job now job) m) (still due all.1)
    ∙ keys-insert job.id (claimed_job now job) m all.0
  where
    still :
        (jobs : List WorkspaceCleanupJob)
        → All (λ j. has j.id m ≡ true) jobs
        → All (λ j. has j.id (insert job.id (claimed_job now job) m) ≡ true) jobs
    still [] a = tt
    still (j ∷ jobs) a = (has-insert j.id job.id _ m a.0, still jobs a.1)

-- A map that is changed under its own keys, and an UPDATE of the rows.
pub values-update_where :
    {V : Type 0} (p : V → Bool) (f : V → V) (m m' : List (ℕ × V))
    → keys m' ≡ keys m
    → UniqueKeys m
    → ((k : ℕ) (v : V) → lookup k m ≡ some v → lookup k m' ≡ some (if p v then f v else v))
    → values m' ≡ update_where p f (values m)
unfolding keys lookup
values-update_where p f [] [] same u at = refl
values-update_where p f [] ((k, v) ∷ m') same u at = absurd cc
values-update_where p f ((j, v) ∷ m) [] same u at = absurd cc
values-update_where {V} p f ((j, v) ∷ m) ((j', v') ∷ m') same u at =
    let tail : keys m' ≡ keys m = cc in
    ground (arith, at j v, values-update_where p f m m' tail u.1 below)
  where
    below : (k : ℕ) (w : V) → lookup k m ≡ some w → lookup k m' ≡ some (if p w then f w else w)
    below k w e = ground (arith, at k w)

pub any_row-false :
    (p : WorkspaceCleanupJob → Bool) (m : List (ℕ × WorkspaceCleanupJob))
    → UniqueKeys m
    → ((k : ℕ) (r : WorkspaceCleanupJob) → lookup k m ≡ some r → p r ≡ false)
    → any_row p (values m) ≡ false
unfolding lookup
any_row-false p [] u none_holds = refl
any_row-false p ((j, r) ∷ m) u none_holds =
    ground (arith, none_holds j r, any_row-false p m u.1 below)
  where
    below : (k : ℕ) (q : WorkspaceCleanupJob) → lookup k m ≡ some q → p q ≡ false
    below k q e = ground (arith, none_holds k q)

pub any_row-true :
    (p : WorkspaceCleanupJob → Bool) (m : List (ℕ × WorkspaceCleanupJob)) (k : ℕ)
    (r : WorkspaceCleanupJob)
    → lookup k m ≡ some r
    → p r ≡ true
    → any_row p (values m) ≡ true
unfolding lookup
any_row-true p [] k r e h = absurd cc
any_row-true p ((j, q) ∷ m) k r e h = ground (arith, any_row-true p m k r)

pub values-insert_new :
    {V : Type 0} (k : ℕ) (v : V) (m : List (ℕ × V))
    → lookup k m ≡ none
    → values (insert k v m) ≡ values m ++ v ∷ []
unfolding lookup insert
values-insert_new k v [] h = refl
values-insert_new k v ((j, w) ∷ m) h = ground (arith, values-insert_new k v m)
