-- ===== src/Api/Http/Gate.antt =====
-- Whom RequireSessionCookie (middleware/session.go) lets pass.
use git_gym.Prelude.{
  ℕ, ◌≡◌, ◌≢◌, ◌≤◌, refl, ◌⊎◌, inl, inr, Bool, true, false, ◌&&◌, Option, none, some, [], arith, ap,
  Bool-cases, ◌==◌, ◌||◌, ltb, if◌then◌else◌,
}
use git_gym.Prelude.Text.{Text, codes, is_empty, to_lower, trim, text_eq→eq}
use git_gym.Api.Errors.{Out, ok, err, is, state, browser_session_not_found}
use git_gym.Api.Monad.{M}
use git_gym.Api.Mysql.Tables.{Db, BrowserSession}
use git_gym.Api.Mysql.Users.{get_browser_session_by_token_hash, revoke_browser_session}
use git_gym.Api.Mysql.Tokens.{revoked_token}
use git_gym.Api.Http.Reply.{Reply, Handler, reply, message}
use git_gym.Api.Http.Session.{
  AuthenticatedSession, require_session_cookie, dev_auth_bypass_enabled, is_switched_on,
  unauthorized,
}

abbrev pub IsRefusal : Reply → Type 0
IsRefusal r = (r.status ≡ 401) ⊎ (r.status ≡ 500)

-- The words that switch the bypass on.
abbrev pub IsSwitch : Text → Type 0
IsSwitch v = (v ≡ codes "1") ⊎ ((v ≡ codes "true") ⊎ ((v ≡ codes "yes") ⊎ (v ≡ codes "on")))

switched_on : (env : Text) → dev_auth_bypass_enabled env ≡ true → IsSwitch (to_lower (trim env))
unfolding dev_auth_bypass_enabled is_switched_on
switched_on env on = ground (
  arith,
  text_eq→eq (to_lower (trim env)) (codes "1"),
  text_eq→eq (to_lower (trim env)) (codes "true"),
  text_eq→eq (to_lower (trim env)) (codes "yes"),
  text_eq→eq (to_lower (trim env)) (codes "on"),
)

module _ {W : Type 0} (hash_session_token : Text → Text) (now : W → ℕ × W)
    (next : AuthenticatedSession → Handler W) where
  -- What a request must bring to pass as `auth`, with the world `w'` in which it goes on.
  abbrev pub IsAdmitted :
      Option (Text → M W BrowserSession) → Option Text → AuthenticatedSession → W → W → Type 0
  IsAdmitted auth_store cookie auth w w' =
      (get : Text → M W BrowserSession) × (row : BrowserSession) × (read : W) × (auth_store
        ≡ some get)
      × (cookie ≡ some auth.session_token)
      × (get (hash_session_token auth.session_token) w ≡ ok row read)
      × (auth.user_id ≡ row.user_id)
      × (row.user_id ≢ 0)
      × ((now read).0 ≤ row.expires_at)
      × (w' ≡ (now read).1)

  with_row :
      (get : Text → M W BrowserSession) (token : Text) (row : BrowserSession) (w read : W)
      (out : Reply × W)
      → get (hash_session_token token) w ≡ ok row read
      → out ≡ (
          if row.user_id == 0 || ltb row.expires_at (now read).0
          then unauthorized (now read).1
          else next (record { user_id = row.user_id; session_token = token }) (now read).1)
      → IsRefusal out.0
        ⊎ ((auth : AuthenticatedSession) × (w' : W) × IsAdmitted (some get) (some token) auth w w'
            × (out ≡ next auth w'))
  with_row get token row w read out got h =
      elim (Bool-cases (row.user_id == 0 || ltb row.expires_at (now read).0)) [
        | inl bad ↦ inl (inl (ground arith))
        | inr good ↦ inr (
          record { user_id = row.user_id; session_token = token },
          (now read).1,
          (get, row, read, refl, refl, got, refl, (λ z. ground arith), ground arith, refl),
          ground arith,
        )
      ]

  with_answer :
      (get : Text → M W BrowserSession) (token : Text) (w : W) (found : Out W BrowserSession)
      (out : Reply × W)
      → get (hash_session_token token) w ≡ found
      → out ≡ elim found [
        | ok row read ↦
            if row.user_id == 0 || ltb row.expires_at (now read).0
            then unauthorized (now read).1
            else next (record { user_id = row.user_id; session_token = token }) (now read).1
        | err e read ↦
            if is e browser_session_not_found
            then unauthorized read
            else reply 500 (message (codes "auth store failure")) read
      ]
      → IsRefusal out.0
        ⊎ ((auth : AuthenticatedSession) × (w' : W) × IsAdmitted (some get) (some token) auth w w'
            × (out ≡ next auth w'))
  with_answer get token w (ok row read) out got h = with_row get token row w read out got h
  with_answer get token w (err e read) out got h =
      elim (Bool-cases (is e browser_session_not_found)) [
        | inl missing ↦ inl (inl (ground arith))
        | inr fails ↦ inl (inr (ground arith))
      ]

  not_bypassed :
      (env : Text) (from_loopback : Bool) (auth_store : Option (Text → M W BrowserSession))
      (cookie : Option Text) (w : W)
      → (dev_auth_bypass_enabled env && from_loopback) ≡ false
      → let out =
          require_session_cookie hash_session_token now next env from_loopback auth_store cookie
            w in
        IsRefusal out.0
        ⊎ ((auth : AuthenticatedSession) × (w' : W) × IsAdmitted auth_store cookie auth w w'
            × (out ≡ next auth w'))
  unfolding require_session_cookie
  not_bypassed env from_loopback auth_store none w off = ground arith
  not_bypassed env from_loopback none (some token) w off = ground arith
  not_bypassed env from_loopback (some get) (some token) w off =
      elim (Bool-cases (is_empty token)) [
        | inl blank ↦ inl (inl (ground arith))
        | inr there ↦
            with_answer get token w (get (hash_session_token token) w) _ refl (rw (off, there) refl)
      ]

  -- The bypass for development: the variable holds one of four words, and the request comes from a
  -- loopback address; it goes on as the default user in the same world.
  abbrev pub IsBypassed : Text → Bool → Reply × W → W → Type 0
  IsBypassed env from_loopback out w =
      IsSwitch (to_lower (trim env))
      × (from_loopback ≡ true)
      × (out ≡ next (record { user_id = 1; session_token = codes "dev-auth-bypass" }) w)

  -- Each request is refused with status 401 or 500; or the store has a session for the hash of the
  -- token in its cookie, the user of the session is not 0, the clock is not past its end, and the
  -- next handler runs for that user and that token; or it comes from a loopback address, the
  -- variable of the bypass, trimmed and in lower case, is one of `1`, `true`, `yes` and `on`, and
  -- the next handler runs for user 1.
  pub gate_cases :
      (env : Text) (from_loopback : Bool) (auth_store : Option (Text → M W BrowserSession))
      (cookie : Option Text) (w : W)
      → let out =
          require_session_cookie hash_session_token now next env from_loopback auth_store cookie
            w in
        IsBypassed env from_loopback out w
        ⊎ (IsRefusal out.0
            ⊎ ((auth : AuthenticatedSession) × (w' : W) × IsAdmitted auth_store cookie auth w w'
                × (out ≡ next auth w')))
  unfolding require_session_cookie
  gate_cases env from_loopback auth_store cookie w =
      elim (Bool-cases (dev_auth_bypass_enabled env && from_loopback)) [
        | inl on ↦ inl (switched_on env (ground (arith, on)), ground (arith, on), rw on refl)
        | inr off ↦ inr (not_bypassed env from_loopback auth_store cookie w off)
      ]

-- Over the tables, where no statement fails and unless the bypass for development applies, a request
-- with a token whose hash was just revoked is refused as unauthorized, whatever the clock of the
-- database shows.
pub revoked_cookie_refused :
    (hash_session_token : Text → Text) (now : Db → ℕ × Db)
    (next : AuthenticatedSession → Handler Db) (env token : Text) (from_loopback : Bool) (db : Db)
    (later : ℕ)
    → (dev_auth_bypass_enabled env && from_loopback) ≡ false
    → db.faults ≡ []
    → let after : Db = record (state (revoke_browser_session (hash_session_token token) db)) {
      current_timestamp = later;
    } in
      require_session_cookie hash_session_token now next env from_loopback
        (some get_browser_session_by_token_hash)
        (some token)
        after
      ≡ unauthorized after
unfolding require_session_cookie
revoked_cookie_refused hash_session_token now next env token from_loopback db later off answers =
    elim (Bool-cases (is_empty token)) [
      | inl blank ↦ rw (off, blank) refl
      | inr there ↦
          let missing = revoked_token later (hash_session_token token) db answers in
          rw (off, there)
            (ap
              (λ out. elim out [
                | ok row read ↦ go row read
                | err e read ↦
                    if is e browser_session_not_found
                    then unauthorized read
                    else reply 500 (message (codes "auth store failure")) read
              ])
              missing)
    ]
  where
    go : BrowserSession → Db → Reply × Db
    go row read =
        if row.user_id == 0 || ltb row.expires_at (now read).0
        then unauthorized (now read).1
        else next (record { user_id = row.user_id; session_token = token }) (now read).1
