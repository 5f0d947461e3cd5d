-- ===== src/Api/Auth/Examples.antt =====
-- The theorems on the sign-in handlers at concrete requests.
use git_gym.Prelude.{ℕ, ◌≡◌, refl, true, false, none, some, Option, [], ◌∷◌}
use git_gym.Prelude.Text.{Text, codes, trim, is_empty}
use git_gym.Api.Errors.{ok}
use git_gym.Api.Mysql.Tables.{Db}
use git_gym.Api.Mysql.Users
use git_gym.Api.Mysql.Users.{GitHubProfile}
use git_gym.Api.Http.Reply.{Reply, reply, message}
use git_gym.Api.Http.Session.{
  AuthenticatedSession, require_session_cookie, unauthorized, dev_auth_bypass_enabled,
}
use git_gym.Api.Auth.Ports.{
  GitHubOAuthClient, Machine, UserStore, hash_session_token, new_session_token,
}
use git_gym.Api.Auth.Request.{Request, should_use_secure_cookies}
use git_gym.Api.Auth.Reply.{Response, no_content, answered, clear_browser_session_cookie}
use git_gym.Api.Auth.Handlers.{git_hub_callback, logout, signed_in}
use git_gym.Api.Auth.Handlers.Callback.{SignInCalls, callback_signs_in}
use git_gym.Api.Auth.Site.{Site, mysql_user_store, later_on}
use git_gym.Api.Auth.Handlers.Logout.{logged_out_cookie_refused}

abbrev no_tables : Db
no_tables = record {
  users = [];
  user_sessions = [];
  practice_sessions = [];
  workspace_cleanup_jobs = [];
  next_user = 1;
  next_user_session = 1;
  next_practice_session = 1;
  next_workspace_cleanup_job = 1;
  current_timestamp = 50;
  faults = [];
}

abbrev site : Site ℕ
site = record { tables = no_tables; rest = 0 }

abbrev machine : Machine (Site ℕ)
machine = record {
  random_bytes = λ w. ok (18 ∷ 52 ∷ []) w;
  sha256 = λ t. t;
  split_host = λ t. none;
  is_loopback_ip = λ t. false;
  with_query = λ url k v. some url;
}

abbrev octocat : GitHubProfile
octocat = record { id = 7; login = codes "o"; name = []; avatar_url = []; email = [] }

abbrev client : GitHubOAuthClient (Site ℕ)
client = record {
  auth_code_url = λ t. t;
  exchange_code = λ code w. ok (codes "a") w;
  fetch_profile = λ token w. ok octocat w;
}

abbrev request : Request
request = record {
  state_cookie = some (codes "s");
  session_cookie = some (codes "1234");
  query_state = codes "s";
  query_code = codes " c";
  is_tls = true;
  forwarded_proto = [];
  forwarded_for = [];
  remote_addr = codes "h";
  url_hostname = [];
  host = [];
  user_agent = [];
}

abbrev url : Text
url = codes "/"

abbrev signed : Response × Site ℕ
signed = git_hub_callback machine url request (some client) (some mysql_user_store) site

abbrev shown : AuthenticatedSession → Site ℕ → Reply × Site ℕ
shown auth = reply 200 (message (codes "ok"))

abbrev now : Site ℕ → ℕ × Site ℕ
now w = (60, w)

callback_signs_in_example :
    (c : GitHubOAuthClient (Site ℕ)) × (store : UserStore (Site ℕ)) × (raw_token : Text) × (◌≡◌
      {A = Option (GitHubOAuthClient (Site ℕ))}
      (some client)
      (some c))
    × (◌≡◌ {A = Option (UserStore (Site ℕ))} (some mysql_user_store) (some store))
    × (◌≡◌ {A = Option Text} (some (codes "s")) (some (codes "s")))
    × (is_empty (codes "s") ≡ false)
    × SignInCalls machine url request c store (trim (codes " c")) site signed.1 raw_token
    × (signed.0 ≡ signed_in machine url request raw_token)
unfolding git_hub_callback Users.upsert_git_hub_user Users.get_user_by_git_hub_id
    Users.create_browser_session new_session_token hash_session_token
callback_signs_in_example =
    callback_signs_in machine url request (some client) (some mysql_user_store) site signed.1
      signed.0 refl refl

logged_out_cookie_refused_example :
    ((logout machine url request (some mysql_user_store) signed.1).0
      ≡ answered (clear_browser_session_cookie true ∷ []) no_content)
    × (require_session_cookie
          (hash_session_token machine)
          now
          shown
          []
          false
          (some mysql_user_store.get_browser_session_by_token_hash)
          (some (codes "1234"))
          (later_on 55 (logout machine url request (some mysql_user_store) signed.1).1)
        ≡ unauthorized
            (later_on 55 (logout machine url request (some mysql_user_store) signed.1).1))
unfolding git_hub_callback Users.upsert_git_hub_user Users.get_user_by_git_hub_id
    Users.create_browser_session new_session_token hash_session_token should_use_secure_cookies
    dev_auth_bypass_enabled
logged_out_cookie_refused_example =
    logged_out_cookie_refused machine url request [] (codes "1234") signed.1 55 false now shown refl
      refl refl refl
