-- ===== src/Api/Mysql/Examples.antt =====
-- The theorems on MySQLStore at concrete inputs: the two jobs of two sessions, and one row in each
-- of the tables that a test reads.
use git_gym.Prelude.{◌+◌, ◌≡◌, refl, none, List, [], ◌∷◌, arith}
use git_gym.Prelude.Map.{lookup, insert, values}
use git_gym.Api.Store.Jobs.{upsert_workspace_cleanup_job}
use git_gym.Prelude.Text.{codes, pos}
use git_gym.Api.Domain.{PracticeSession, active, expired, orphaned}
use git_gym.Api.Errors.{ok, state}
use git_gym.Api.Service.{pending_job}
use git_gym.Api.Store.State.{MemoryStore, new_memory_store}
use git_gym.Api.Store.Sessions.{
  expire_practice_sessions as memory_expire, update_practice_session as memory_update,
}
use git_gym.Api.Store.Invariant.{JobsInv}
use git_gym.Api.Store.Claim.{claimed_jobs, claimed_store, result}
use git_gym.Api.Store.Lifecycle.{JobCall, upsert, call_store, call_all}
use git_gym.Api.Store.Lifecycle.History.{call_all-JobsInv}
use git_gym.Api.Mysql.Tables.{Db, BrowserSession, nullable_string}
use git_gym.Api.Mysql.Sessions
use git_gym.Api.Mysql.Jobs.{claim_due_workspace_cleanup_jobs}
use git_gym.Api.Mysql.Users.{
  GitHubProfile, create_browser_session, get_browser_session_by_token_hash, browser_session_days,
  new_browser_session, is_token_taken,
}
use git_gym.Api.Mysql.Refinement.{SameJobs, call_tables, claim_refines, job_call_refines}
use git_gym.Api.Mysql.Sweep.{expire_refines}
use git_gym.Api.Mysql.Tokens.{token_lookup}

abbrev two_upserts : List JobCall
unfolding pending_job
two_upserts =
    upsert 0 (pending_job 7 (codes "ws-a") expired 5)
    ∷ upsert 0 (pending_job 8 (codes "ws-b") orphaned 6)
    ∷ []

abbrev two_jobs : MemoryStore
two_jobs = call_all two_upserts new_memory_store

two_jobs-JobsInv : JobsInv two_jobs
unfolding two_upserts
two_jobs-JobsInv = call_all-JobsInv two_upserts (omega arith, (omega arith, tt)) (omega arith)

abbrev open_session : PracticeSession
open_session = record {
  id = 7;
  user_id = 1;
  template_id = 1;
  scenario_id = 1;
  runner_ref = codes "ws-a";
  workspace_path_ref = codes "/work/ws-a";
  status = active;
  started_at = 0;
  ended_at = none;
  expires_at = 100;
  last_activity_at = 0;
}

abbrev one_session : MemoryStore
one_session = record new_memory_store { sessions = (7, open_session) ∷ [] }

abbrev tables : Db
tables = record {
  users = [];
  user_sessions = [];
  practice_sessions = open_session ∷ [];
  workspace_cleanup_jobs = values two_jobs.cleanup_jobs;
  next_user = 1;
  next_user_session = 1;
  next_practice_session = 8;
  next_workspace_cleanup_job = 3;
  current_timestamp = 50;
  faults = [];
}

claim_refines_example :
    claim_due_workspace_cleanup_jobs 10 (pos 1) tables
    ≡ ok (claimed_jobs 10 (pos 1) two_jobs) (record tables {
      workspace_cleanup_jobs = values (claimed_store 10 (pos 1) two_jobs).cleanup_jobs;
    })
claim_refines_example = claim_refines 10 (pos 1) two_jobs tables two_jobs-JobsInv (refl, refl)

abbrev third_upsert : JobCall
unfolding pending_job
third_upsert = upsert 20 (pending_job 9 (codes "ws-c") expired 25)

job_call_refines_example :
    SameJobs (call_store third_upsert two_jobs) (call_tables third_upsert tables)
unfolding third_upsert call_all call_store new_memory_store two_upserts upsert_workspace_cleanup_job
    lookup insert
job_call_refines_example =
    job_call_refines third_upsert two_jobs tables two_jobs-JobsInv (refl, refl) (refl, refl, refl)

expire_refines_example :
    Sessions.expire_practice_sessions 100 101 tables
    ≡ ok (result (λ ended. ended) [] (memory_expire 100 101 one_session)) (record tables {
      practice_sessions = values (state (memory_expire 100 101 one_session)).sessions;
    })
unfolding new_memory_store Sessions.expired_at
expire_refines_example =
    expire_refines 100 101 one_session tables refl refl (((λ h. refl), (λ h e l. ground arith)), tt)

abbrev touched : PracticeSession
touched = record open_session { last_activity_at = 40 }

abbrev octocat : GitHubProfile
octocat = record {
  id = 583;
  login = codes "octocat";
  name = codes "Octo";
  avatar_url = [];
  email = codes "o@example.com";
}

abbrev browser_row : BrowserSession
browser_row = record {
  id = 1;
  user_id = 4;
  session_token_hash = codes "abc";
  user_agent = nullable_string (codes "curl");
  ip_address = none;
  expires_at = 50 + browser_session_days;
  revoked_at = none;
}

token_lookup_example :
    let created = create_browser_session 4 (codes "abc") (codes "curl") [] tables in
    let after = record (state created) { current_timestamp = 60 } in
    (created ≡ ok tt (state created))
    × (get_browser_session_by_token_hash (codes "abc") after ≡ ok browser_row after)
unfolding is_token_taken new_browser_session
token_lookup_example = token_lookup 4 60 (codes "abc") (codes "curl") [] tables refl refl
