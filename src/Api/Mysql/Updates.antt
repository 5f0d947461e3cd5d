-- ===== src/Api/Mysql/Updates.antt =====
-- UpdatePracticeSession of MySQLStore (mysql.go), which counts the rows that change, and the method
-- of the store in memory.
use git_gym.Prelude.{ℕ, ◌≡◌, Bool, true, not, Option, none, some, List}
use git_gym.Prelude.Map.{lookup}
use git_gym.Api.Domain.{PracticeSession}
use git_gym.Api.Store.Sessions.{update_practice_session as memory_update}
use git_gym.Api.Mysql.Sessions.{update_practice_session, changes}

abbrev pub IsFiledById : List (ℕ × PracticeSession) → Type 0
IsFiledById m = (k : ℕ) (r : PracticeSession) → lookup k m ≡ some r → r.id ≡ k

abbrev pub unaffected_at : PracticeSession → Option PracticeSession → Bool
unaffected_at session none = true
unaffected_at session (some old) = not (changes session old)

-- The two agree in what a session keeps for its life.
abbrev pub SameSession : PracticeSession → PracticeSession → Type 0
SameSession session old =
    (session.id ≡ old.id)
    × (session.user_id ≡ old.user_id)
    × (session.scenario_id ≡ old.scenario_id)
    × (session.template_id ≡ old.template_id)
    × (session.runner_ref ≡ old.runner_ref)
    × (session.workspace_path_ref ≡ old.workspace_path_ref)
    × (session.started_at ≡ old.started_at)
    × (session.expires_at ≡ old.expires_at)
