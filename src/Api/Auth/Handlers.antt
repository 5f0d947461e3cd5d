-- ===== src/Api/Auth/Handlers.antt =====
-- The handlers of http/handlers/auth.go.
pub mod Callback
pub mod Passes
pub mod Logout
use git_gym.Prelude.{ℕ, Bool, true, false, Option, none, some, List, [], ◌∷◌, ◌==◌, if◌then◌else◌}
use git_gym.Prelude.Text.{Text, codes, text_eq, trim, is_blank, is_empty}
use git_gym.Api.Errors.{Error, ok, err}
use git_gym.Api.Monad.{M}
use git_gym.Api.Mysql.Tables.{CurrentUser}
use git_gym.Api.Http.Session.{AuthenticatedSession}
use git_gym.Api.Auth.Ports.{
  UserStore, GitHubOAuthClient, Machine, new_session_token, hash_session_token,
}
use git_gym.Api.Auth.Request.{Request, client_ip, should_use_secure_cookies}
use git_gym.Api.Auth.Reply.{
  Cookie, Response, redirect, http_error, no_content, user_body, nothing_written, answered,
  failed_with, set_oauth_state_cookie, clear_oauth_state_cookie, set_browser_session_cookie,
  clear_browser_session_cookie, oauth_failure_redirect_url,
}

abbrev pub Handler : Type 0 → Type 0
Handler W = W → Response × W

-- `value, err := call; if err != nil { …; return }`.
abbrev pub or_fail : {W A : Type 0} → M W A → Response → (A → Handler W) → Handler W
or_fail call failure go_on w = elim (call w) [ ok a w' ↦ go_on a w' | err e w' ↦ (failure, w') ]

abbrev pub or_nothing : Option Response → Response
or_nothing none = answered [] nothing_written
or_nothing (some r) = r

module _ {W : Type 0} (machine : Machine W) (frontend_redirect_url : Text) (r : Request) where
  unfoldable pub redirect_to_oauth_failure : Text → Bool → Option Response
  unfolding oauth_failure_redirect_url should_use_secure_cookies clear_oauth_state_cookie
  redirect_to_oauth_failure code clear_state =
      failed_with (oauth_failure_redirect_url machine frontend_redirect_url code) (
        if clear_state
        then clear_oauth_state_cookie (should_use_secure_cookies machine r) ∷ []
        else [])

  -- The calls that do not look at what redirectToOAuthFailure returns.
  unfoldable pub failure : Text → Response
  unfolding redirect_to_oauth_failure
  failure code = or_nothing (redirect_to_oauth_failure code true)

  or_unavailable : Option Response → Text → Response
  or_unavailable none message = answered [] (http_error 500 message)
  or_unavailable (some answer) message = answer

  -- requireOAuthFlowReady, with what the two flows do where it fails.
  unfoldable pub when_ready :
      Option (GitHubOAuthClient W)
      → Option (UserStore W)
      → Bool
      → (GitHubOAuthClient W → UserStore W → Handler W)
      → Handler W
  unfolding or_unavailable redirect_to_oauth_failure is_blank
  when_ready none auth_store clear_state flow w = (
    or_unavailable (redirect_to_oauth_failure (codes "oauth_unavailable") clear_state)
        (codes "github oauth is not configured"),
    w,
  )
  when_ready (some client) none clear_state flow w = (
    or_unavailable (redirect_to_oauth_failure (codes "oauth_unavailable") clear_state)
        (codes "auth store is not configured"),
    w,
  )
  when_ready (some client) (some store) clear_state flow w = elim (is_blank frontend_redirect_url) [
    | true ↦ (
      or_unavailable (redirect_to_oauth_failure (codes "oauth_unavailable") clear_state)
          (codes "frontend redirect is not configured"),
      w,
    )
    | false ↦ flow client store w
  ]

  unfoldable pub git_hub_login : Option (GitHubOAuthClient W) → Option (UserStore W) → Handler W
  unfolding when_ready new_session_token set_oauth_state_cookie should_use_secure_cookies
  git_hub_login git_hub auth_store = when_ready git_hub auth_store false λ client store.
      or_fail (new_session_token machine) (answered [] (http_error 500 (codes "internal error")))
        λ token w. (
          answered (set_oauth_state_cookie token (should_use_secure_cookies machine r) ∷ [])
              (redirect (client.auth_code_url token)),
          w,
        )

  -- What a completed sign-in replies.
  unfoldable pub signed_in : Text → Response
  unfolding set_browser_session_cookie clear_oauth_state_cookie should_use_secure_cookies
  signed_in raw_token =
      answered
        (set_browser_session_cookie raw_token (should_use_secure_cookies machine r)
          ∷ clear_oauth_state_cookie (should_use_secure_cookies machine r)
          ∷ [])
        (redirect frontend_redirect_url)

  -- From the exchange of the code on.
  unfoldable pub with_code : GitHubOAuthClient W → UserStore W → Text → Handler W
  unfolding failure new_session_token hash_session_token client_ip signed_in
  with_code client store code =
      or_fail (client.exchange_code code) (failure (codes "oauth_exchange_failed")) λ access_token.
        or_fail (client.fetch_profile access_token) (failure (codes "oauth_profile_failed"))
          λ profile.
            or_fail (store.upsert_git_hub_user profile) (failure (codes "oauth_session_failed"))
              λ id.
                or_fail (store.get_user_by_git_hub_id profile.id)
                  (failure (codes "oauth_session_failed"))
                  λ user.
                    or_fail (new_session_token machine) (failure (codes "oauth_session_failed"))
                      λ raw_token.
                        or_fail
                          (store.create_browser_session user.id
                            (hash_session_token machine raw_token) r.user_agent
                            (client_ip machine r))
                          (failure (codes "oauth_session_failed"))
                          λ done w. (signed_in raw_token, w)

  -- `err != nil || stateCookie.Value == "" || … != stateCookie.Value`.
  unfoldable pub is_state_valid : Option Text → Bool
  unfolding text_eq
  is_state_valid none = false
  is_state_valid (some value) = if is_empty value then false else text_eq r.query_state value

  -- The callback once its dependencies are there.
  unfoldable pub callback_flow : GitHubOAuthClient W → UserStore W → Handler W
  unfolding is_state_valid failure with_code trim
  callback_flow client store w = elim (is_state_valid r.state_cookie) [
    | false ↦ (failure (codes "oauth_state_invalid"), w)
    | true ↦ elim (is_empty (trim r.query_code)) [
      | true ↦ (failure (codes "oauth_code_missing"), w)
      | false ↦ with_code client store (trim r.query_code) w
    ]
  ]

  unfoldable pub git_hub_callback : Option (GitHubOAuthClient W) → Option (UserStore W) → Handler W
  unfolding when_ready callback_flow
  git_hub_callback git_hub auth_store = when_ready git_hub auth_store true callback_flow

  revoke : Text → Option (UserStore W) → Handler W
  unfolding hash_session_token clear_browser_session_cookie should_use_secure_cookies
  revoke token none w = (
    answered (clear_browser_session_cookie (should_use_secure_cookies machine r) ∷ [])
        (http_error 500 (codes "auth store is not configured")),
    w,
  )
  revoke token (some store) w =
      or_fail (store.revoke_browser_session (hash_session_token machine token))
        (answered (clear_browser_session_cookie (should_use_secure_cookies machine r) ∷ [])
          (http_error 500 (codes "failed to revoke browser session")))
        (λ done w'. (
          answered (clear_browser_session_cookie (should_use_secure_cookies machine r) ∷ [])
              no_content,
          w',
        ))
        w

  with_session_cookie : Option Text → Option (UserStore W) → Handler W
  unfolding revoke
  with_session_cookie none auth_store w = (answered [] (http_error 401 (codes "unauthorized")), w)
  with_session_cookie (some token) auth_store w = elim (is_empty token) [
    | true ↦ (answered [] (http_error 401 (codes "unauthorized")), w)
    | false ↦ revoke token auth_store w
  ]

  unfoldable pub logout : Option (UserStore W) → Handler W
  unfolding with_session_cookie
  logout auth_store = with_session_cookie r.session_cookie auth_store

module _ {W : Type 0} where
  -- The user that AuthMe shows.
  me_of : Option (UserStore W) → AuthenticatedSession → Handler W
  me_of none auth w = (answered [] (http_error 500 (codes "auth store is not configured")), w)
  me_of (some store) auth w =
      or_fail (store.get_user_by_id auth.user_id)
        (answered [] (http_error 500 (codes "failed to load current user")))
        (λ user w'. (answered [] (user_body user), w')) w

  unfoldable pub auth_me : Option (UserStore W) → Option AuthenticatedSession → Handler W
  unfolding me_of
  auth_me auth_store none w =
      (answered [] (http_error 500 (codes "authenticated session missing from request context")), w)
  auth_me auth_store (some auth) w = elim (auth.user_id == 0) [
    | true ↦ (
      answered [] (http_error 500 (codes "authenticated session missing from request context")),
      w,
    )
    | false ↦ me_of auth_store auth w
  ]
