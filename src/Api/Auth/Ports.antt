-- ===== src/Api/Auth/Ports.antt =====
-- What the sign-in handlers call: the interfaces UserStore (service/auth_service.go) and
-- GitHubOAuthClient (oauth/github.go), the random bytes and the hash of session_cookie.go, and the
-- functions of Go's net and net/url.
use git_gym.Prelude.{ℕ, Bool, Option, List, [], ◌∷◌, ◌+◌, ◌/◌, ◌%◌, ltb, if◌then◌else◌}
use git_gym.Prelude.Text.{Text}
use git_gym.Api.Monad.{M, pure, ◌>>=◌}
use git_gym.Api.Mysql.Tables.{CurrentUser, BrowserSession}
use git_gym.Api.Mysql.Users.{GitHubProfile}

pub record UserStore (W : Type 0) : Type 0 where
  pub upsert_git_hub_user : GitHubProfile → M W ℕ
  pub get_user_by_git_hub_id : ℕ → M W CurrentUser
  pub get_user_by_id : ℕ → M W CurrentUser
  pub create_browser_session : ℕ → Text → Text → Text → M W (Unit {0})
  pub get_browser_session_by_token_hash : Text → M W BrowserSession
  pub revoke_browser_session : Text → M W (Unit {0})

pub record GitHubOAuthClient (W : Type 0) : Type 0 where
  pub auth_code_url : Text → Text
  pub exchange_code : Text → M W Text
  pub fetch_profile : Text → M W GitHubProfile

-- `rand.Read` of 32 bytes, `sha256.Sum256`, `net.SplitHostPort` (the host), `net.ParseIP` and
-- `IsLoopback`, and a URL with one query key set.
pub record Machine (W : Type 0) : Type 0 where
  pub random_bytes : M W (List ℕ)
  pub sha256 : Text → List ℕ
  pub split_host : Text → Option Text
  pub is_loopback_ip : Text → Bool
  pub with_query : Text → Text → Text → Option Text

abbrev hex_digit : ℕ → ℕ
hex_digit n = if ltb n 10 then b'0' + n else b'W' + n

-- `hex.EncodeToString`.
unfoldable pub hex_encode : List ℕ → Text
hex_encode [] = []
hex_encode (b ∷ bytes) = hex_digit (b / 16) ∷ hex_digit (b % 16) ∷ hex_encode bytes

module _ {W : Type 0} (machine : Machine W) where
  unfoldable pub new_session_token : M W Text
  unfolding hex_encode
  new_session_token = machine.random_bytes >>= λ bytes. pure (hex_encode bytes)

  unfoldable pub hash_session_token : Text → Text
  unfolding hex_encode
  hash_session_token raw = hex_encode (machine.sha256 raw)
