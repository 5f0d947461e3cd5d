-- ===== src/Api/Auth/Reply.antt =====
-- The replies of auth.go: cookies, and a redirect, a text or a user.
use git_gym.Prelude.{ℕ, Bool, true, false, Option, none, some, List, []}
use git_gym.Prelude.Text.{Text, codes, ℤ, pos, negsuc, is_blank}
use git_gym.Api.Mysql.Tables.{CurrentUser}
use git_gym.Api.Auth.Ports.{Machine}

-- `max_age` 0 leaves the attribute out; a negative one deletes the cookie.
pub record Cookie : Type 0 where
  pub name : Text
  pub value : Text
  pub path : Text
  pub secure : Bool
  pub http_only : Bool
  pub same_site : Text
  pub max_age : ℤ

pub data Outcome : Type 0 where
  redirect : Text → Outcome
  http_error : ℕ → Text → Outcome
  no_content : Outcome
  user_body : CurrentUser → Outcome
  nothing_written : Outcome

-- The cookies in the order in which they are set.
pub record Response : Type 0 where
  pub cookies : List Cookie
  pub outcome : Outcome

abbrev pub oauth_state_cookie_name : Text
oauth_state_cookie_name = codes "gitgym_oauth_state"

abbrev pub browser_session_cookie_name : Text
browser_session_cookie_name = codes "gitgym_session"

abbrev pub oauth_error_query_key : Text
oauth_error_query_key = codes "oauth_error"

abbrev cookie : Text → Text → ℤ → Bool → Cookie
cookie name value max_age secure = record {
  name = name;
  value = value;
  path = codes "/";
  secure = secure;
  http_only = true;
  same_site = codes "Lax";
  max_age = max_age;
}

unfoldable pub set_oauth_state_cookie : Text → Bool → Cookie
set_oauth_state_cookie token = cookie oauth_state_cookie_name token (pos 300)

unfoldable pub clear_oauth_state_cookie : Bool → Cookie
clear_oauth_state_cookie = cookie oauth_state_cookie_name [] (negsuc 0)

unfoldable pub set_browser_session_cookie : Text → Bool → Cookie
set_browser_session_cookie token = cookie browser_session_cookie_name token (pos 0)

unfoldable pub clear_browser_session_cookie : Bool → Cookie
clear_browser_session_cookie = cookie browser_session_cookie_name [] (negsuc 0)

abbrev pub answered : List Cookie → Outcome → Response
answered cookies outcome = record { cookies = cookies; outcome = outcome }

-- The reply of a failure where the redirect can be written.
abbrev pub failed_with : Option Text → List Cookie → Option Response
failed_with none cookies = none
failed_with (some url) cookies = some (answered cookies (redirect url))

unfoldable pub oauth_failure_redirect_url : {W : Type 0} → Machine W → Text → Text → Option Text
unfolding is_blank
oauth_failure_redirect_url machine frontend_redirect_url code =
    elim (is_blank frontend_redirect_url) [
      | true ↦ none
      | false ↦ elim (is_blank code) [
        | true ↦ none
        | false ↦ machine.with_query frontend_redirect_url oauth_error_query_key code
      ]
    ]
