-- ===== src/Api/Http/Session.antt =====
-- RequireSessionCookie of middleware/session.go. The store of users, the hash of a token, the clock and
-- whether the request comes from a loopback address are parameters.
use git_gym.Prelude.{ℕ, Bool, ◌&&◌, ◌||◌, Option, none, some, ◌==◌, ltb, if◌then◌else◌}
use git_gym.Prelude.Text.{Text, codes, text_eq, is_empty, trim, to_lower}
use git_gym.Api.Errors.{Error, ok, err, is, browser_session_not_found}
use git_gym.Api.Monad.{M}
use git_gym.Api.Mysql.Tables.{BrowserSession}
use git_gym.Api.Http.Reply.{Handler, reply, message}

pub record AuthenticatedSession : Type 0 where
  pub user_id : ℕ
  pub session_token : Text

abbrev pub default_authenticated_user_id : ℕ
default_authenticated_user_id = 1

unfoldable pub is_switched_on : Text → Bool
unfolding text_eq
is_switched_on v =
    text_eq v (codes "1")
    || (text_eq v (codes "true") || (text_eq v (codes "yes") || text_eq v (codes "on")))

unfoldable pub dev_auth_bypass_enabled : Text → Bool
unfolding is_switched_on trim to_lower
dev_auth_bypass_enabled env = is_switched_on (to_lower (trim env))

abbrev pub unauthorized : {W : Type 0} → Handler W
unauthorized = reply 401 (message (codes "unauthorized"))

module _ {W : Type 0} (hash_session_token : Text → Text) (now : W → ℕ × W)
    (next : AuthenticatedSession → Handler W) where
  -- The session that the store has for the token.
  admit : Text → BrowserSession → Handler W
  admit token row w =
      let (t, w') = now w in
      if row.user_id == 0 || ltb row.expires_at t
      then unauthorized w'
      else next (record { user_id = row.user_id; session_token = token }) w'

  refuse : Error → Handler W
  refuse e w =
      if is e browser_session_not_found
      then unauthorized w
      else reply 500 (message (codes "auth store failure")) w

  with_token : Option (Text → M W BrowserSession) → Text → Handler W
  unfolding admit refuse
  with_token none token w = reply 500 (message (codes "auth store is not configured")) w
  with_token (some get_browser_session_by_token_hash) token w =
      elim (get_browser_session_by_token_hash (hash_session_token token) w) [
        | ok row w' ↦ admit token row w'
        | err e w' ↦ refuse e w'
      ]

  with_cookie : Option (Text → M W BrowserSession) → Option Text → Handler W
  unfolding with_token
  with_cookie auth_store none w = unauthorized w
  with_cookie auth_store (some token) w =
      if is_empty token then unauthorized w else with_token auth_store token w

  unfoldable pub require_session_cookie :
      Text → Bool → Option (Text → M W BrowserSession) → Option Text → Handler W
  unfolding with_cookie dev_auth_bypass_enabled
  require_session_cookie env from_loopback auth_store cookie w =
      if dev_auth_bypass_enabled env && from_loopback
      then next
          (record {
            user_id = default_authenticated_user_id;
            session_token = codes "dev-auth-bypass";
          })
          w
      else with_cookie auth_store cookie w
