-- ===== src/Api/Store/Sessions.antt =====
-- The session methods of InMemoryPracticeSessionStore (practice_service.go).
use git_gym.Prelude.{
  ℕ, ◌+◌, ◌%◌, Bool, true, not, ◌&&◌, ◌||◌, Option, none, some, List, [], ◌∷◌, ltb, ◌==◌,
  if◌then◌else◌, take, keep,
}
use git_gym.Prelude.Map.{lookup, insert, has}
use git_gym.Prelude.Sort.{sort}
use git_gym.Prelude.Text.{ℤ, non_positive, pos_part}
use git_gym.Api.Domain.{PracticeSession, is_active, is_ended, expired, u64_mod}
use git_gym.Api.Errors.{Out, ok, err, sentinel, practice_session_not_found}
use git_gym.Api.Store.State.{MemoryStore}

unfoldable pub create_practice_session :
    PracticeSession → MemoryStore → Out MemoryStore PracticeSession
create_practice_session session s =
    let created = record session { id = s.next_id } in
    ok created (record s {
      next_id = (s.next_id + 1) % u64_mod;
      sessions = insert created.id created s.sessions;
      current_by_user = insert created.user_id created.id s.current_by_user;
    })

found_session : Option PracticeSession → MemoryStore → Out MemoryStore PracticeSession
found_session none s = err (sentinel practice_session_not_found) s
found_session (some session) s = ok session s

found_current : Option ℕ → MemoryStore → Out MemoryStore PracticeSession
unfolding found_session
found_current none s = err (sentinel practice_session_not_found) s
found_current (some session_id) s = found_session (lookup session_id s.sessions) s

unfoldable pub current_practice_session : ℕ → MemoryStore → Out MemoryStore PracticeSession
unfolding found_current
current_practice_session user_id s = found_current (lookup user_id s.current_by_user) s

unfoldable pub practice_session_by_id : ℕ → MemoryStore → Out MemoryStore PracticeSession
unfolding found_session
practice_session_by_id session_id s = found_session (lookup session_id s.sessions) s

-- `!ok || currentID == session.ID || session.Status == PracticeSessionStatusActive`.
becomes_current : Option ℕ → PracticeSession → Bool
becomes_current none session = true
becomes_current (some current_id) session = current_id == session.id || is_active session.status

unfoldable pub update_practice_session :
    PracticeSession → MemoryStore → Out MemoryStore PracticeSession
unfolding becomes_current
update_practice_session session s =
    if has session.id s.sessions
    then ok session (record s {
      sessions = insert session.id session s.sessions;
      current_by_user =
          if becomes_current (lookup session.user_id s.current_by_user) session
          then insert session.user_id session.id s.current_by_user
          else s.current_by_user;
    })
    else err (sentinel practice_session_not_found) s

-- The test of the loop of ExpirePracticeSessions, the other way round: a session that it changes.
unfoldable pub is_stale : ℕ → PracticeSession → Bool
is_stale before session = is_active session.status && not (ltb before session.expires_at)

first_end : Option ℕ → ℕ → Option ℕ
first_end none at = some at
first_end (some earlier) at = some earlier

-- The new status, with the time of the change; an end that is already set stays.
unfoldable pub end_session : ℕ → PracticeSession → PracticeSession
unfolding first_end
end_session ended_at session = record session {
  status = expired;
  last_activity_at = ended_at;
  ended_at = first_end session.ended_at ended_at;
}

unfoldable pub expire_loop :
    ℕ → ℕ → List (ℕ × PracticeSession) → List (ℕ × PracticeSession) × List PracticeSession
unfolding is_stale end_session
expire_loop before ended_at [] = ([], [])
expire_loop before ended_at ((id, session) ∷ rest) =
    let (kept, ended) = expire_loop before ended_at rest in
    if is_stale before session
    then ((id, end_session ended_at session) ∷ kept, end_session ended_at session ∷ ended)
    else ((id, session) ∷ kept, ended)

unfoldable pub expire_practice_sessions :
    ℕ → ℕ → MemoryStore → Out MemoryStore (List PracticeSession)
expire_practice_sessions before ended_at s =
    let (sessions, ended) = expire_loop before ended_at s.sessions in
    ok ended (record s { sessions = sessions })

unfoldable pub keys : {V : Type 0} → List (ℕ × V) → List ℕ
keys [] = []
keys ((k, v) ∷ m) = k ∷ keys m

-- `m[id]` for each id in turn.
unfoldable pub at_keys : {V : Type 0} → List (ℕ × V) → List ℕ → List V
at_keys m [] = []
at_keys m (k ∷ ks) = elim (lookup k m) [ none ↦ at_keys m ks | some v ↦ v ∷ at_keys m ks ]

-- The values in the order of their keys: `sort.Slice` over the ids, then one look-up for each.
unfoldable pub in_key_order : {V : Type 0} → List (ℕ × V) → List V
unfolding keys at_keys
in_key_order m = at_keys m (sort ltb (keys m))

unfoldable pub is_missing_job : MemoryStore → PracticeSession → Bool
is_missing_job s session = is_ended session.status && not (has session.id s.cleanup_job_by_session)

-- The loop skips what fails the test and breaks when `limit` items are gathered.
unfoldable pub list_practice_sessions_missing_workspace_cleanup_job :
    ℤ → MemoryStore → Out MemoryStore (List PracticeSession)
unfolding is_missing_job in_key_order
list_practice_sessions_missing_workspace_cleanup_job limit s =
    if non_positive limit
    then ok [] s
    else ok (take (pos_part limit) (keep (is_missing_job s) (in_key_order s.sessions))) s
