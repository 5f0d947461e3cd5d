-- ===== src/Api/Mysql/Tokens.antt =====
-- The browser sessions of MySQLStore (mysql.go) by their tokens.
use git_gym.Prelude.{
  ℕ, ◌+◌, ◌≡◌, refl, Bool, false, ◌&&◌, some, List, [], ◌∷◌, ◌++◌, arith, keep, ltb, if◌then◌else◌,
}
use git_gym.Prelude.Text.{Text, text_eq_refl}
use git_gym.Api.Errors.{ok, err, sentinel, browser_session_not_found, state}
use git_gym.Api.Mysql.Tables.{Db, BrowserSession, update_where}
use git_gym.Api.Mysql.Users.{
  has_token, create_browser_session, get_browser_session_by_token_hash, revoke_browser_session,
  browser_session_days, new_browser_session, is_token_taken,
}

-- The rows that a look-up at this time may take.
abbrev live : Text → ℕ → BrowserSession → Bool
live token now r = has_token token r && ltb now r.expires_at

keep-append_none :
    (token : Text) (now : ℕ) (rows more : List BrowserSession)
    → is_token_taken token rows ≡ false
    → keep (live token now) (rows ++ more) ≡ keep (live token now) more
unfolding is_token_taken has_token
keep-append_none token now [] more free = refl
keep-append_none token now (r ∷ rows) more free =
    ground (arith, keep-append_none token now rows more)

keep-revoked :
    (token : Text) (now at : ℕ) (rows : List BrowserSession)
    → keep
        (live token now)
        (update_where (has_token token) (λ r. record r { revoked_at = some at }) rows)
      ≡ []
unfolding has_token
keep-revoked token now at [] = refl
keep-revoked token now at (r ∷ rows) = ground (arith, keep-revoked token now at rows)

-- Where no statement fails and no row has the token hash, CreateBrowserSession succeeds, and a look-
-- up by the hash gives the new row until 30 days have gone by on the clock, and
-- ErrBrowserSessionNotFound from then on.
pub token_lookup :
    (user_id later : ℕ) (token user_agent ip : Text) (db : Db)
    → db.faults ≡ []
    → is_token_taken token db.user_sessions ≡ false
    → let created = create_browser_session user_id token user_agent ip db in
      let row = new_browser_session db.next_user_session user_id token user_agent ip db in
      let after = record (state created) { current_timestamp = later } in
      (created ≡ ok tt (state created))
      × (get_browser_session_by_token_hash token after ≡ (
          if ltb later (db.current_timestamp + browser_session_days)
          then ok row after
          else err (sentinel browser_session_not_found) after))
unfolding create_browser_session get_browser_session_by_token_hash has_token
token_lookup user_id later token user_agent ip db answers free = ground (
  arith,
  text_eq_refl token,
  keep-append_none token later db.user_sessions
      (new_browser_session db.next_user_session user_id token user_agent ip db ∷ []) free,
)

-- Where no statement fails, a look-up by a token hash that was just revoked gives
-- ErrBrowserSessionNotFound, whatever the clock shows.
pub revoked_token :
    (later : ℕ) (token : Text) (db : Db)
    → db.faults ≡ []
    → let after = record (state (revoke_browser_session token db)) { current_timestamp = later } in
      get_browser_session_by_token_hash token after ≡ err (sentinel browser_session_not_found) after
unfolding revoke_browser_session get_browser_session_by_token_hash
revoked_token later token db answers =
    ground (arith, keep-revoked token later db.current_timestamp db.user_sessions)
