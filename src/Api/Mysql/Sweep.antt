-- ===== src/Api/Mysql/Sweep.antt =====
-- The sweep of MySQLStore (mysql.go) for expired sessions, and the one of the store in memory.
use git_gym.Prelude.{ℕ, ◌≡◌, ◌≢◌, refl, false, none, some, List, [], ◌∷◌, arith, All}
use git_gym.Prelude.Map.{values}
use git_gym.Api.Domain.{PracticeSession, active, expired}
use git_gym.Api.Errors.{ok}
use git_gym.Api.Store.State.{MemoryStore}
use git_gym.Api.Store.Sessions.{
  expire_loop, is_stale, end_session, expire_practice_sessions as memory_expire,
}
use git_gym.Api.Mysql.Tables.{Db, update_where}
use git_gym.Api.Mysql.Sessions.{expire_practice_sessions, expires, expired_row, expired_at, time_eq}
use git_gym.Prelude.{keep}
use git_gym.Api.Store.Claim.{result}
use git_gym.Api.Errors.{state}

-- An active session has no end yet, and no expired one has this very time for its end and for its
-- last activity.
abbrev pub IsReady : ℕ → PracticeSession → Type 0
IsReady at r =
    (r.status ≡ active → r.ended_at ≡ none)
    × (r.status ≡ expired → r.ended_at ≡ some at → r.last_activity_at ≢ at)

not_read_back : (at : ℕ) (r : PracticeSession) → IsReady at r → expired_at at r ≡ false
unfolding expired_at time_eq
not_read_back at r ready = ground (arith, ready.1)

pub expire_rows :
    (before at : ℕ) (m : List (ℕ × PracticeSession))
    → All (IsReady at) (values m)
    → let (kept, ended) = expire_loop before at m in
      (update_where (expires before) (expired_row at) (values m) ≡ values kept)
      × (keep (expired_at at) (values kept) ≡ ended)
unfolding expire_loop expires expired_row expired_at is_stale end_session
expire_rows before at [] ready = (refl, refl)
expire_rows before at ((id, r) ∷ m) ready =
    ground (arith, ready.0.0, not_read_back at r ready.0, expire_rows before at m ready.1)

-- Let the table have the values of the session map as its rows, in the same order, and let no
-- statement fail; let no active session have an end yet, and no session that is expired already the
-- time of the sweep for its end and for its last activity. Then the sweep of the tables returns the
-- sessions that the sweep of the map returns, and the rows become the values of the map behind it.
pub expire_refines :
    (before at : ℕ) (s : MemoryStore) (db : Db)
    → db.practice_sessions ≡ values s.sessions
    → db.faults ≡ []
    → All (IsReady at) (values s.sessions)
    → let swept = memory_expire before at s in
      expire_practice_sessions before at db
      ≡ ok
          (result (λ ended. ended) [] swept)
          (record db { practice_sessions = values (state swept).sessions })
unfolding memory_expire expire_practice_sessions
expire_refines before at s db same answers ready =
    ground (arith, expire_rows before at s.sessions ready)
