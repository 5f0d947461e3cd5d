-- ===== src/Api/Auth/Handlers/Logout.antt =====
-- Logout (http/handlers/auth.go) over the tables of mysql.go, and what the cookie is worth to
-- RequireSessionCookie (middleware/session.go) from then on.
use git_gym.Prelude.{
  ℕ, ◌≡◌, refl, ap, Bool, false, ◌&&◌, Bool-cases, inl, inr, some, [], ◌∷◌, arith,
}
use git_gym.Prelude.Text.{Text, is_empty}
use git_gym.Api.Errors.{state, err, sentinel, browser_session_not_found}
use git_gym.Api.Monad.{M}
use git_gym.Api.Mysql.Tables.{BrowserSession}
use git_gym.Api.Mysql.Users
use git_gym.Api.Mysql.Tokens.{revoked_token}
use git_gym.Api.Http.Reply.{Reply}
use git_gym.Api.Http.Session.{
  AuthenticatedSession, require_session_cookie, dev_auth_bypass_enabled, unauthorized,
}
use git_gym.Api.Auth.Ports.{Machine, hash_session_token}
use git_gym.Api.Auth.Request.{Request, should_use_secure_cookies}
use git_gym.Api.Auth.Reply.{Response, no_content, answered, clear_browser_session_cookie}
use git_gym.Api.Auth.Handlers.{logout, with_session_cookie, revoke}
use git_gym.Api.Auth.Site.{Site, on_tables, later_on, mysql_user_store}

missing_token_refused :
    {W : Type 0} (hash : Text → Text) (now : W → ℕ × W)
    (next : AuthenticatedSession → W → Reply × W) (env : Text) (from_loopback : Bool)
    (get : Text → M W BrowserSession) (token : Text) (w : W)
    → (dev_auth_bypass_enabled env && from_loopback) ≡ false
    → get (hash token) w ≡ err (sentinel browser_session_not_found) w
    → require_session_cookie hash now next env from_loopback (some get) (some token) w
      ≡ unauthorized w
unfolding require_session_cookie
missing_token_refused hash now next env from_loopback get token w off missing =
    elim (Bool-cases (is_empty token)) [
      | inl blank ↦ rw (off, blank) refl
      | inr there ↦ rw (off, there, missing) refl
    ]

gone :
    {R : Type 0} (later : ℕ) (hash : Text) (w w' : Site R)
    → w.tables.faults ≡ []
    → w' ≡ record w { tables = state (Users.revoke_browser_session hash w.tables) }
    → on_tables (Users.get_browser_session_by_token_hash hash) (later_on later w')
      ≡ err (sentinel browser_session_not_found) (later_on later w')
gone later hash w w' answers h = rw (h, revoked_token later hash w.tables answers) refl

logged_out :
    {R : Type 0} (machine : Machine (Site R)) (frontend_redirect_url : Text) (r : Request)
    (token : Text) (w : Site R)
    → w.tables.faults ≡ []
    → r.session_cookie ≡ some token
    → is_empty token ≡ false
    → logout machine frontend_redirect_url r (some mysql_user_store) w ≡ (
      answered (clear_browser_session_cookie (should_use_secure_cookies machine r) ∷ []) no_content,
      record w {
        tables = state (Users.revoke_browser_session (hash_session_token machine token) w.tables);
      },
    )
unfolding logout with_session_cookie revoke Users.revoke_browser_session
logged_out machine url r token w answers cookie there = ground (arith)

-- Over the tables, where no statement fails and the bypass for development does not apply, Logout
-- with a session cookie that is not empty clears the cookie with status 204, and a later request
-- with the same token is refused as unauthorized, whatever the clock of the database shows.
pub logged_out_cookie_refused :
    {R : Type 0} (machine : Machine (Site R)) (frontend_redirect_url : Text) (r : Request)
    (env token : Text) (w : Site R) (later : ℕ) (from_loopback : Bool) (now : Site R → ℕ × Site R)
    (next : AuthenticatedSession → Site R → Reply × Site R)
    → w.tables.faults ≡ []
    → r.session_cookie ≡ some token
    → is_empty token ≡ false
    → (dev_auth_bypass_enabled env && from_loopback) ≡ false
    → let out = logout machine frontend_redirect_url r (some mysql_user_store) w in
      (out.0
        ≡ answered
            (clear_browser_session_cookie (should_use_secure_cookies machine r) ∷ [])
            no_content)
      × (require_session_cookie
            (hash_session_token machine)
            now
            next
            env
            from_loopback
            (some mysql_user_store.get_browser_session_by_token_hash)
            (some token)
            (later_on later out.1)
          ≡ unauthorized (later_on later out.1))
logged_out_cookie_refused machine url r env token w later from_loopback now next answers cookie
      there off =
    let out = logged_out machine url r token w answers cookie there in
    let missing = revoked_token later (hash_session_token machine token) w.tables answers in
    (
      ap (λ (p : Response × Site _). p.0) out,
      missing_token_refused (hash_session_token machine) now next env from_loopback
          mysql_user_store.get_browser_session_by_token_hash token _ off
          (gone later (hash_session_token machine token) w _ answers
            (ap (λ (p : Response × Site _). p.1) out)),
    )
