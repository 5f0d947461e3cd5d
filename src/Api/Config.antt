-- ===== src/Api/Config.antt =====
-- config/config.go, and mergeConfig, mergeDependencies and authCallbackURL of http/router.go. The
-- environment and the reading of a URL's host are parameters; a nil dependency is `none`.
use git_gym.Prelude.{
  Bool, true, false, ◌||◌, Option, none, some, List, [], ◌∷◌, ◌++◌, ◌≡◌, refl, if◌then◌else◌,
}
use git_gym.Prelude.Text.{Text, codes, is_empty, text_eq, to_lower, trim}
use git_gym.Api.Errors.{Error}
use git_gym.Api.Auth.Request.{fold}
use git_gym.Api.RunnerClient.{trim_right_slashes}

pub record Config : Type 0 where
  pub my_sqldsn : Text
  pub git_hub_client_id : Text
  pub git_hub_secret : Text
  pub session_secret : Text
  pub operator_token : Text
  pub runner_base_url : Text
  pub api_base_url : Text
  pub frontend_redirect_url : Text

unfoldable pub default_if_blank : Text → Text → Text
default_if_blank value fallback = if is_empty value then fallback else value

module _ (getenv : Text → Text) (parse_hostname : Text → Option Text)
    (is_loopback_ip : Text → Bool) where
  is_local_host : Option Text → Bool
  unfolding text_eq to_lower fold
  is_local_host none = false
  is_local_host (some host) =
      if text_eq (to_lower (fold host)) (codes "localhost") then true else is_loopback_ip host

  unfoldable pub is_local_base_url : Text → Bool
  unfolding is_local_host trim
  is_local_base_url raw_url = is_local_host (parse_hostname (trim raw_url))

  unfoldable pub frontend_redirect : Text → Text → Text
  unfolding is_local_base_url
  frontend_redirect explicit api_base_url =
      if is_empty explicit
      then (if is_local_base_url api_base_url then codes "http://127.0.0.1:5173" else [])
      else explicit

  unfoldable pub load_runtime : Config
  unfolding default_if_blank frontend_redirect
  load_runtime =
      let api_base_url =
        default_if_blank (getenv (codes "API_BASE_URL")) (codes "http://127.0.0.1:8080") in
      record {
        my_sqldsn = getenv (codes "MYSQL_DSN");
        git_hub_client_id = getenv (codes "GITHUB_CLIENT_ID");
        git_hub_secret = getenv (codes "GITHUB_CLIENT_SECRET");
        session_secret = getenv (codes "SESSION_COOKIE_SECRET");
        operator_token = getenv (codes "OPERATOR_API_TOKEN");
        runner_base_url = getenv (codes "RUNNER_BASE_URL");
        api_base_url = api_base_url;
        frontend_redirect_url =
            frontend_redirect (getenv (codes "FRONTEND_REDIRECT_URL")) api_base_url;
      }

  unfoldable pub load : Option Config
  unfolding load_runtime
  load =
      if is_empty load_runtime.my_sqldsn
        || (is_empty load_runtime.git_hub_client_id
            || (is_empty load_runtime.git_hub_secret || is_empty load_runtime.session_secret))
      then none
      else some load_runtime

unfoldable pub merge_config : Config → Config → Config
unfolding default_if_blank
merge_config base override = record {
  my_sqldsn = default_if_blank override.my_sqldsn base.my_sqldsn;
  git_hub_client_id = default_if_blank override.git_hub_client_id base.git_hub_client_id;
  git_hub_secret = default_if_blank override.git_hub_secret base.git_hub_secret;
  session_secret = default_if_blank override.session_secret base.session_secret;
  operator_token = default_if_blank override.operator_token base.operator_token;
  runner_base_url = default_if_blank override.runner_base_url base.runner_base_url;
  api_base_url = default_if_blank override.api_base_url base.api_base_url;
  frontend_redirect_url =
      default_if_blank override.frontend_redirect_url base.frontend_redirect_url;
}

pub record Dependencies (Service Client Store OAuth : Type 0) : Type 0 where
  pub practice_service : Option Service
  pub runner_client : Option Client
  pub auth_store : Option Store
  pub auth_config : Config
  pub git_hub_oauth_client : Option OAuth
  pub initialization_error : Option Error

abbrev overridden : {A : Type 0} → Option A → Option A → Option A
overridden base none = base
overridden base (some a) = some a

-- An override with a store also takes the error of the start away.
abbrev error_beside : {A : Type 0} → Option A → Option Error → Option Error
error_beside none e = e
error_beside (some store) e = none

module _ {Service Client Store OAuth : Type 0} where
  -- The first of the overrides counts.
  unfoldable pub merge_dependencies :
      Dependencies Service Client Store OAuth
      → List (Dependencies Service Client Store OAuth)
      → Dependencies Service Client Store OAuth
  unfolding merge_config
  merge_dependencies base [] = base
  merge_dependencies base (override ∷ others) = record {
    practice_service = overridden base.practice_service override.practice_service;
    runner_client = overridden base.runner_client override.runner_client;
    auth_store = overridden base.auth_store override.auth_store;
    auth_config = merge_config base.auth_config override.auth_config;
    git_hub_oauth_client = overridden base.git_hub_oauth_client override.git_hub_oauth_client;
    initialization_error = error_beside override.auth_store base.initialization_error;
  }

unfoldable pub auth_callback_url : Text → Text
unfolding trim_right_slashes
auth_callback_url api_base_url =
    trim_right_slashes api_base_url ++ codes "/api/v1/auth/github/callback"

default_if_blank_assoc :
    (a b c : Text)
    → default_if_blank a (default_if_blank b c) ≡ default_if_blank (default_if_blank a b) c
unfolding default_if_blank
default_if_blank_assoc [] b c = refl
default_if_blank_assoc (x ∷ a) b c = refl

-- Two overrides one after the other are one override, in which the later one counts.
merge_config_assoc :
    (base first second : Config)
    → merge_config (merge_config base first) second ≡ merge_config base (merge_config first second)
unfolding merge_config
merge_config_assoc base first second = simp default_if_blank_assoc refl
