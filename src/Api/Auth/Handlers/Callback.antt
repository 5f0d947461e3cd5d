-- ===== src/Api/Auth/Handlers/Callback.antt =====
-- When GitHubCallback (http/handlers/auth.go) hands out a browser session.
use git_gym.Prelude.{
  ℕ, ◌≡◌, refl, sym, ap, ◌∙◌, Bool, true, false, Option, none, some, List, [], ◌∷◌, arith, ◌||◌,
  Bool-cases, inl, inr,
}
use git_gym.Prelude.Text.{Text, codes, text_eq, text_eq→eq, trim, is_blank, is_empty}
use git_gym.Api.Errors.{Out, ok, err}
use git_gym.Api.Monad.{M}
use git_gym.Api.Mysql.Tables.{CurrentUser}
use git_gym.Api.Mysql.Users.{GitHubProfile}
use git_gym.Api.Auth.Ports.{
  UserStore, GitHubOAuthClient, Machine, new_session_token, hash_session_token,
}
use git_gym.Api.Auth.Request.{Request, client_ip}
use git_gym.Api.Auth.Reply.{
  Cookie, Response, failed_with, browser_session_cookie_name, clear_oauth_state_cookie,
  oauth_failure_redirect_url,
}
use git_gym.Api.Auth.Handlers.{
  Handler, or_fail, or_nothing, redirect_to_oauth_failure, failure, when_ready, signed_in,
  with_code, is_state_valid, callback_flow, git_hub_callback, or_unavailable,
}

-- A cookie with the name of the browser session's.
abbrev pub sets_session : List Cookie → Bool
sets_session [] = false
sets_session (c ∷ cookies) = text_eq c.name browser_session_cookie_name || sets_session cookies

module _ {W : Type 0} (machine : Machine W) (frontend_redirect_url : Text) (r : Request) where
  no_session :
      (url : Option Text) (secure : Bool)
      → sets_session (or_nothing (failed_with url (clear_oauth_state_cookie secure ∷ []))).cookies
        ≡ false
  unfolding clear_oauth_state_cookie text_eq
  no_session none secure = refl
  no_session (some u) secure = refl

  failure-sets :
      (code : Text) → sets_session (failure machine frontend_redirect_url r code).cookies ≡ false
  unfolding failure
  failure-sets code = no_session (oauth_failure_redirect_url machine frontend_redirect_url code) _

  -- The calls of a sign-in that goes through, with the worlds between them.
  pub record SignInCalls (client : GitHubOAuthClient W) (store : UserStore W) (code : Text)
      (w w' : W) (raw_token : Text) : Type 0 where
    pub access_token : Text
    pub profile : GitHubProfile
    pub user_id : ℕ
    pub user : CurrentUser
    pub exchanged : W
    pub fetched : W
    pub upserted : W
    pub read : W
    pub drawn : W
    pub exchange_ok : client.exchange_code code w ≡ ok access_token exchanged
    pub fetch_ok : client.fetch_profile access_token exchanged ≡ ok profile fetched
    pub upsert_ok : store.upsert_git_hub_user profile fetched ≡ ok user_id upserted
    pub get_ok : store.get_user_by_git_hub_id profile.id upserted ≡ ok user read
    pub token_ok : new_session_token machine read ≡ ok raw_token drawn
    pub create_ok :
        store.create_browser_session user.id
          (hash_session_token machine raw_token)
          r.user_agent
          (client_ip machine r)
          drawn
        ≡ ok tt w'

  -- A step that did not fail, and what comes behind it.
  past :
      {A : Type 0} {P : Type 0} (code : Text) (call : M W A) (go_on : A → Handler W) (w w' : W)
      (a : Response)
      → sets_session a.cookies ≡ true
      → or_fail call (failure machine frontend_redirect_url r code) go_on w ≡ (a, w')
      → ((got : A) (read : W) → call w ≡ ok got read → go_on got read ≡ (a, w') → P)
      → P
  past {A} {P} code call go_on w w' a set h use_it = go (call w) refl h
    where
      go :
          (out : Out W A)
          → call w ≡ out
          → elim out [
            | ok b u ↦ go_on b u
            | err e u ↦ (failure machine frontend_redirect_url r code, u)
          ]
            ≡ (a, w')
          → P
      go (ok b u) e k = use_it b u e k
      go (err e u) same k = absurd (ground (arith, failure-sets code))

  with_code_lem :
      (client : GitHubOAuthClient W) (store : UserStore W) (code : Text) (w w' : W) (a : Response)
      → with_code machine frontend_redirect_url r client store code w ≡ (a, w')
      → sets_session a.cookies ≡ true
      → (raw_token : Text) × SignInCalls client store code w w' raw_token
        × (a ≡ signed_in machine frontend_redirect_url r raw_token)
  unfolding with_code
  with_code_lem client store code w w' a h set =
      past (codes "oauth_exchange_failed") (client.exchange_code code) _ w w' a set h
        λ access_token w1 e1 h1.
          past (codes "oauth_profile_failed") (client.fetch_profile access_token) _ w1 w' a set h1
            λ profile w2 e2 h2.
              past (codes "oauth_session_failed") (store.upsert_git_hub_user profile) _ w2 w' a set
                h2
                λ id w3 e3 h3.
                  past (codes "oauth_session_failed") (store.get_user_by_git_hub_id profile.id) _ w3
                    w' a set h3
                    λ user w4 e4 h4.
                      past (codes "oauth_session_failed") (new_session_token machine) _ w4 w' a set
                        h4
                        λ raw_token w5 e5 h5.
                          past (codes "oauth_session_failed")
                            (store.create_browser_session user.id
                              (hash_session_token machine raw_token) r.user_agent
                              (client_ip machine r))
                            _ w5 w' a set h5
                            λ done w6 e6 h6. (
                              raw_token,
                              record {
                                access_token = access_token;
                                profile = profile;
                                user_id = id;
                                user = user;
                                exchanged = w1;
                                fetched = w2;
                                upserted = w3;
                                read = w4;
                                drawn = w5;
                                exchange_ok = e1;
                                fetch_ok = e2;
                                upsert_ok = e3;
                                get_ok = e4;
                                token_ok = e5;
                                create_ok =
                                    e6
                                    ∙ ap (λ (v : W). ok tt v) (ap (λ (p : Response × W). p.1) h6);
                              },
                              sym (ap (λ (p : Response × W). p.0) h6),
                            )

  flow_signs_in :
      (client : GitHubOAuthClient W) (store : UserStore W) (w w' : W) (a : Response)
      → callback_flow machine frontend_redirect_url r client store w ≡ (a, w')
      → sets_session a.cookies ≡ true
      → (is_state_valid machine frontend_redirect_url r r.state_cookie ≡ true)
        × (with_code machine frontend_redirect_url r client store (trim r.query_code) w ≡ (a, w'))
  unfolding callback_flow
  flow_signs_in client store w w' a h set =
      ground (
        arith,
        failure-sets (codes "oauth_state_invalid"),
        failure-sets (codes "oauth_code_missing"),
      )

  is_state_valid_lem :
      (cookie : Option Text)
      → is_state_valid machine frontend_redirect_url r cookie ≡ true
      → (cookie ≡ some r.query_state) × (is_empty r.query_state ≡ false)
  unfolding is_state_valid
  is_state_valid_lem none h = absurd cc
  is_state_valid_lem (some value) h = elim (Bool-cases (is_empty value)) [
    | inl blank ↦ absurd (ground arith)
    | inr there ↦
        (let same = text_eq→eq r.query_state value (ground arith) in
          (ap some (sym same), ap is_empty same ∙ there))
  ]

  unavailable-sets :
      (url : Option Text) (secure : Bool) (message : Text)
      → sets_session
          (or_unavailable machine frontend_redirect_url r
            (failed_with url (clear_oauth_state_cookie secure ∷ []))
            message).cookies
        ≡ false
  unfolding or_unavailable clear_oauth_state_cookie text_eq
  unavailable-sets none secure message = refl
  unavailable-sets (some u) secure message = refl

  not_ready :
      (message : Text) (w w' : W) (a : Response)
      → ◌≡◌ {A = Response × W}
          (
            or_unavailable machine frontend_redirect_url r
                (redirect_to_oauth_failure machine frontend_redirect_url r
                  (codes "oauth_unavailable")
                  true)
                message,
            w,
          )
          (a, w')
      → sets_session a.cookies ≡ false
  unfolding redirect_to_oauth_failure
  not_ready message w w' a h =
      ap (λ (p : Response × W). sets_session p.0.cookies) (sym h)
      ∙ unavailable-sets
          (oauth_failure_redirect_url machine frontend_redirect_url (codes "oauth_unavailable")) _
          message

  when_ready-some :
      (client : GitHubOAuthClient W) (store : UserStore W)
      (flow : GitHubOAuthClient W → UserStore W → Handler W) (w w' : W) (a : Response)
      → when_ready machine frontend_redirect_url r (some client) (some store) true flow w ≡ (a, w')
      → sets_session a.cookies ≡ true
      → flow client store w ≡ (a, w')
  unfolding when_ready
  when_ready-some client store flow w w' a h set = go (is_blank frontend_redirect_url) h
    where
      go :
          (blank : Bool)
          → ◌≡◌ {A = Response × W}
              (elim blank [
                | true ↦ (
                  or_unavailable machine frontend_redirect_url r
                      (redirect_to_oauth_failure machine frontend_redirect_url r
                        (codes "oauth_unavailable")
                        true)
                      (codes "frontend redirect is not configured"),
                  w,
                )
                | false ↦ flow client store w
              ])
              (a, w')
          → flow client store w ≡ (a, w')
      go true k = absurd (ground (arith, not_ready _ w w' a k))
      go false k = k

  pub configured_signs_in :
      (client : GitHubOAuthClient W) (store : UserStore W) (w w' : W) (a : Response)
      → git_hub_callback machine frontend_redirect_url r (some client) (some store) w ≡ (a, w')
      → sets_session a.cookies ≡ true
      → (raw_token : Text) × (r.state_cookie ≡ some r.query_state)
        × (is_empty r.query_state ≡ false)
        × SignInCalls client store (trim r.query_code) w w' raw_token
        × (a ≡ signed_in machine frontend_redirect_url r raw_token)
  unfolding git_hub_callback
  configured_signs_in client store w w' a h set =
      let ready =
        when_ready-some client store (callback_flow machine frontend_redirect_url r) w w' a h set in
      let flow = flow_signs_in client store w w' a ready set in
      let state = is_state_valid_lem r.state_cookie flow.0 in
      let done = with_code_lem client store (trim r.query_code) w w' a flow.1 set in
      (done.0, state.0, state.1, done.1, done.2)

  -- Where GitHubCallback replies with a cookie of the browser session's name, the OAuth client and
  -- the store are configured, the state of the request is not empty and is the value of the state
  -- cookie, the exchange of the code, the profile, the user, the token and its session all came
  -- through, each with what the one before gave, and the reply is that of a completed sign-in with
  -- this token.
  pub callback_signs_in :
      (git_hub : Option (GitHubOAuthClient W)) (auth_store : Option (UserStore W)) (w w' : W)
      (a : Response)
      → git_hub_callback machine frontend_redirect_url r git_hub auth_store w ≡ (a, w')
      → sets_session a.cookies ≡ true
      → (client : GitHubOAuthClient W) × (store : UserStore W) × (raw_token : Text) × (git_hub
          ≡ some client)
        × (auth_store ≡ some store)
        × (r.state_cookie ≡ some r.query_state)
        × (is_empty r.query_state ≡ false)
        × SignInCalls client store (trim r.query_code) w w' raw_token
        × (a ≡ signed_in machine frontend_redirect_url r raw_token)
  unfolding git_hub_callback when_ready
  callback_signs_in none auth_store w w' a h set = absurd (ground (arith, not_ready _ w w' a h))
  callback_signs_in (some client) none w w' a h set = absurd (ground (arith, not_ready _ w w' a h))
  callback_signs_in (some client) (some store) w w' a h set =
      let done = configured_signs_in client store w w' a h set in
      (client, store, done.0, refl, refl, done.1, done.2, done.3, done.4)
