-- ===== src/Api/Auth/Github.antt =====
-- gitHubOAuthClient of oauth/github.go. The OAuth library, the transport and the JSON decoder are
-- parameters: a request to an address of GitHub's API ends with an error, or with a status and what
-- the body decodes to, `none` where it does not.
use git_gym.Prelude.{ℕ, Bool, not, ◌&&◌, Option, none, some, List, [], ◌∷◌, ◌==◌, if◌then◌else◌}
use git_gym.Prelude.Text.{Text, codes, is_blank}
use git_gym.Api.Errors.{wrapped, foreign}
use git_gym.Api.Monad.{M, pure, fail, on_outcome, ◌>>=◌}
use git_gym.Api.Mysql.Users.{GitHubProfile}
use git_gym.Api.Auth.Ports.{GitHubOAuthClient}

pub record GitHubUserResponse : Type 0 where
  pub id : ℕ
  pub login : Text
  pub name : Text
  pub avatar_url : Text
  pub email : Text

pub record GitHubEmailResponse : Type 0 where
  pub email : Text
  pub primary : Bool
  pub verified : Bool

pub record Answer (A : Type 0) : Type 0 where
  pub status : ℕ
  pub body : Option A

pub record GitHubApi (W : Type 0) : Type 0 where
  pub auth_code_url : Text → Text
  pub exchange : Text → M W Text
  pub get_user : Text → M W (Answer GitHubUserResponse)
  pub get_emails : Text → M W (Answer (List GitHubEmailResponse))

unfoldable pub has_required_git_hub_oauth_config : Text → Text → Text → Bool
has_required_git_hub_oauth_config client_id client_secret redirect_url =
    not (is_blank client_id) && (not (is_blank client_secret) && not (is_blank redirect_url))

decoded_body : {W A : Type 0} → Option A → M W A
decoded_body none = fail (wrapped (foreign (codes "decode github response")))
decoded_body (some a) = pure a

unfoldable pub get_json : {W A : Type 0} → M W (Answer A) → M W A
unfolding decoded_body
get_json send =
    on_outcome send (λ e. fail (wrapped e))
      λ answer.
        if answer.status == 200
        then decoded_body answer.body
        else fail (foreign (codes "github request returned another status"))

-- The two loops, the first of them with its test.
unfoldable pub first_email : (GitHubEmailResponse → Bool) → List GitHubEmailResponse → Option Text
first_email p [] = none
first_email p (e ∷ rest) = if p e then some e.email else first_email p rest

unfoldable pub primary_verified_email : List GitHubEmailResponse → Text
unfolding first_email
primary_verified_email emails = elim (first_email (λ e. e.primary && e.verified) emails) [
  | some email ↦ email
  | none ↦ elim (first_email (λ e. e.verified) emails) [ some email ↦ email | none ↦ [] ]
]

unfoldable pub git_hub_profile : GitHubUserResponse → Text → GitHubProfile
git_hub_profile user email = record {
  id = user.id;
  login = user.login;
  name = user.name;
  avatar_url = user.avatar_url;
  email = email;
}

module _ {W : Type 0} (api : GitHubApi W) where
  unfoldable pub exchange_code : Text → M W Text
  exchange_code code = on_outcome (api.exchange code) (λ e. fail (wrapped e)) pure

  email_of : Text → Text → M W Text
  unfolding get_json primary_verified_email
  email_of access_token [] =
      get_json (api.get_emails access_token) >>= λ emails. pure (primary_verified_email emails)
  email_of access_token (c ∷ email) = pure (c ∷ email)

  unfoldable pub fetch_profile : Text → M W GitHubProfile
  unfolding email_of get_json git_hub_profile
  fetch_profile access_token = do
    user ← get_json (api.get_user access_token)
    email ← email_of access_token user.email
    pure (git_hub_profile user email)

  -- NewGitHubOAuthClient.
  unfoldable pub new_git_hub_oauth_client : Text → Text → Text → Option (GitHubOAuthClient W)
  unfolding exchange_code fetch_profile has_required_git_hub_oauth_config
  new_git_hub_oauth_client client_id client_secret redirect_url =
      if has_required_git_hub_oauth_config client_id client_secret redirect_url
      then some (record {
        auth_code_url = api.auth_code_url;
        exchange_code = exchange_code;
        fetch_profile = fetch_profile;
      })
      else none
