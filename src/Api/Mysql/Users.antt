-- ===== src/Api/Mysql/Users.antt =====
-- The methods of MySQLStore (mysql.go) on users and user_sessions.
use git_gym.Prelude.{
  ℕ, ◌+◌, ◌*◌, Bool, true, false, ◌&&◌, ◌||◌, Option, none, some, List, [], ◌∷◌, ◌++◌, ltb, ◌==◌,
  if◌then◌else◌, keep,
}
use git_gym.Prelude.Text.{Text, text_eq, codes}
use git_gym.Api.Domain.{minute}
use git_gym.Api.Errors.{sentinel, wrapped, foreign, browser_session_not_found}
use git_gym.Api.Monad.{M, pure, fail, ◌>>=◌, ◌>>◌}
use git_gym.Api.Mysql.Tables.{
  Db, CurrentUser, BrowserSession, statement, update_where, first_of, nullable_string,
}

-- service.GitHubProfile.
pub record GitHubProfile : Type 0 where
  pub id : ℕ
  pub login : Text
  pub name : Text
  pub avatar_url : Text
  pub email : Text

unfoldable pub profiled : GitHubProfile → CurrentUser → CurrentUser
profiled profile u = record u {
  github_login = profile.login;
  display_name = profile.name;
  avatar_url = nullable_string profile.avatar_url;
  email = nullable_string profile.email;
}

unfoldable pub new_user : ℕ → GitHubProfile → CurrentUser
unfolding profiled
new_user id profile = record {
  id = id;
  github_id = profile.id;
  github_login = profile.login;
  display_name = profile.name;
  avatar_url = nullable_string profile.avatar_url;
  email = nullable_string profile.email;
}

abbrev pub of_github : ℕ → CurrentUser → Bool
of_github github_id u = u.github_id == github_id

abbrev pub any_user : (CurrentUser → Bool) → List CurrentUser → Bool
any_user p [] = false
any_user p (u ∷ rows) = p u || any_user p rows

-- The key on github_user_id is unique.
unfoldable pub upserted_user : ℕ → GitHubProfile → List CurrentUser → List CurrentUser
unfolding profiled new_user
upserted_user id profile rows =
    if any_user (of_github profile.id) rows
    then update_where (of_github profile.id) (profiled profile) rows
    else rows ++ new_user id profile ∷ []

scanned_user : Option CurrentUser → M Db CurrentUser
scanned_user none = fail (wrapped (foreign (codes "sql: no rows in result set")))
scanned_user (some u) = pure u

unfoldable pub get_user_by_git_hub_id : ℕ → M Db CurrentUser
unfolding scanned_user
get_user_by_git_hub_id github_id = do
  row ← statement λ db. (first_of (keep (of_github github_id) db.users), db)
  scanned_user row

unfoldable pub get_user_by_id : ℕ → M Db CurrentUser
unfolding scanned_user
get_user_by_id user_id = do
  row ← statement λ db. (first_of (keep (λ u. u.id == user_id) db.users), db)
  scanned_user row

unfoldable pub upsert_git_hub_user : GitHubProfile → M Db ℕ
unfolding upserted_user get_user_by_git_hub_id
upsert_git_hub_user profile = do
  statement λ db. (
    tt,
    record db { users = upserted_user db.next_user profile db.users; next_user = db.next_user + 1 },
  )
  user ← get_user_by_git_hub_id profile.id
  pure user.id

abbrev pub browser_session_days : ℕ
browser_session_days = 30 * (24 * (60 * minute))

unfoldable pub new_browser_session : ℕ → ℕ → Text → Text → Text → Db → BrowserSession
new_browser_session id user_id token_hash user_agent ip db = record {
  id = id;
  user_id = user_id;
  session_token_hash = token_hash;
  user_agent = nullable_string user_agent;
  ip_address = nullable_string ip;
  expires_at = db.current_timestamp + browser_session_days;
  revoked_at = none;
}

unfoldable pub is_token_taken : Text → List BrowserSession → Bool
unfolding text_eq
is_token_taken token_hash [] = false
is_token_taken token_hash (r ∷ rows) =
    text_eq r.session_token_hash token_hash || is_token_taken token_hash rows

-- The key on session_token_hash is unique, and a second row with it is an error.
unfoldable pub create_browser_session : ℕ → Text → Text → Text → M Db (Unit {0})
unfolding new_browser_session is_token_taken
create_browser_session user_id token_hash user_agent ip = do
  taken ← statement λ db. (
    is_token_taken token_hash db.user_sessions,
    if is_token_taken token_hash db.user_sessions then db else record db {
      user_sessions =
          db.user_sessions
          ++ new_browser_session db.next_user_session user_id token_hash user_agent ip db ∷ [];
      next_user_session = db.next_user_session + 1;
    },
  )
  if taken then fail (wrapped (foreign (codes "Duplicate entry"))) else pure tt

abbrev pub is_unrevoked : Option ℕ → Bool
is_unrevoked none = true
is_unrevoked (some at) = false

-- The WHERE of browserSessionLookupQuery and of revokeBrowserSessionQuery.
unfoldable pub has_token : Text → BrowserSession → Bool
unfolding text_eq
has_token token_hash r = text_eq r.session_token_hash token_hash && is_unrevoked r.revoked_at

found_browser_session : Option BrowserSession → M Db BrowserSession
found_browser_session none = fail (sentinel browser_session_not_found)
found_browser_session (some r) = pure r

unfoldable pub get_browser_session_by_token_hash : Text → M Db BrowserSession
unfolding has_token found_browser_session
get_browser_session_by_token_hash token_hash = do
  row ← statement λ db. (
    first_of (
        keep (λ r. has_token token_hash r && ltb db.current_timestamp r.expires_at)
          db.user_sessions),
    db,
  )
  found_browser_session row

unfoldable pub revoke_browser_session : Text → M Db (Unit {0})
unfolding has_token
revoke_browser_session token_hash = statement λ db. (
  tt,
  record db {
    user_sessions =
        update_where (has_token token_hash)
          (λ r. record r { revoked_at = some db.current_timestamp }) db.user_sessions;
  },
)
