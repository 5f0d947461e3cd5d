-- ===== src/Api/Auth/Site.antt =====
-- The store of mysql.go as the UserStore (service/auth_service.go) of the sign-in handlers, in a world that
-- has other parts than its tables.
use git_gym.Prelude.{
  ℕ, ◌+◌, ◌≡◌, ◌≢◌, ◌≤◌, ◌<◌, refl, sym, ap, ◌∙◌, Bool, true, false, ◌&&◌, some, List, [], ◌∷◌,
  arith, keep, ◌==◌, ltb, if◌then◌else◌,
}
use git_gym.Prelude.Text.{Text, is_empty}
use git_gym.Api.Errors.{Out, ok, err, state}
use git_gym.Api.Monad.{M}
use git_gym.Api.Mysql.Tables.{Db, CurrentUser, BrowserSession, first_of}
use git_gym.Api.Mysql.Users
use git_gym.Api.Mysql.Users.{
  GitHubProfile, of_github, any_user, is_token_taken, browser_session_days,
}
use git_gym.Api.Mysql.SignIn
use git_gym.Api.Mysql.Tokens.{token_lookup}
use git_gym.Api.Http.Reply.{Reply}
use git_gym.Api.Http.Session.{AuthenticatedSession, require_session_cookie, dev_auth_bypass_enabled}
use git_gym.Api.Auth.Ports.{UserStore, hex_encode}

-- The tables, and whatever else the calls of GitHub and of the machine read and change.
pub record Site (R : Type 0) : Type 0 where
  pub tables : Db
  pub rest : R

module _ {R : Type 0} where
  abbrev pub back : {A : Type 0} → Site R → Out Db A → Out (Site R) A
  back w (ok a db) = ok a (record w { tables = db })
  back w (err e db) = err e (record w { tables = db })

  abbrev pub on_tables : {A : Type 0} → M Db A → M (Site R) A
  on_tables call w = back w (call w.tables)

  abbrev pub mysql_user_store : UserStore (Site R)
  mysql_user_store = record {
    upsert_git_hub_user = λ profile. on_tables (Users.upsert_git_hub_user profile);
    get_user_by_git_hub_id = λ id. on_tables (Users.get_user_by_git_hub_id id);
    get_user_by_id = λ id. on_tables (Users.get_user_by_id id);
    create_browser_session =
        λ id token ua ip. on_tables (Users.create_browser_session id token ua ip);
    get_browser_session_by_token_hash =
        λ token. on_tables (Users.get_browser_session_by_token_hash token);
    revoke_browser_session = λ token. on_tables (Users.revoke_browser_session token);
  }

  -- A call of something else than the database.
  abbrev pub KeepsTables : {A : Type 0} → M (Site R) A → Type 0
  KeepsTables {A} call = (w : Site R) → (state (call w)).tables ≡ w.tables

  -- A later time of the database.
  abbrev pub later_on : ℕ → Site R → Site R
  later_on time w = record w { tables = record w.tables { current_timestamp = time } }

  pub back_ok :
      {A : Type 0} (w w' : Site R) (a b : A) (out : Out Db A) (db : Db)
      → back w out ≡ ok a w'
      → out ≡ ok b db
      → (a ≡ b) × (w'.tables ≡ db)
  back_ok w w' a b out db h k = ground arith

  pub back_inv :
      {A : Type 0} (w w' : Site R) (a : A) (out : Out Db A)
      → back w out ≡ ok a w'
      → out ≡ ok a w'.tables
  back_inv w w' a out h = ground arith

  pub keeps_ok :
      {A : Type 0} (call : M (Site R) A) (w w' : Site R) (a : A)
      → KeepsTables call
      → call w ≡ ok a w'
      → w'.tables ≡ w.tables
  keeps_ok call w w' a keeps h = ground (arith, keeps w)

pub upsert_state :
    (profile : GitHubProfile) (db : Db)
    → db.faults ≡ []
    → ((state (Users.upsert_git_hub_user profile db)).faults ≡ [])
      × ((state (Users.upsert_git_hub_user profile db)).current_timestamp ≡ db.current_timestamp)
unfolding Users.upsert_git_hub_user
upsert_state profile db answers = ground (arith, answers)

-- No user has the number 0, and none will.
abbrev pub IsNumbered : Db → Type 0
IsNumbered db = (db.next_user ≢ 0) × (any_user (λ u. u.id == 0) db.users ≡ false)

pub signed_in_number :
    (id : ℕ) (profile : GitHubProfile) (rows : List CurrentUser)
    → id ≢ 0
    → any_user (λ u. u.id == 0) rows ≡ false
    → (SignIn.signed_in id profile (first_of (keep (of_github profile.id) rows))).id ≢ 0
unfolding Users.new_user Users.profiled
signed_in_number id profile [] some_id others = ground arith
signed_in_number id profile (u ∷ rows) some_id others =
    ground (arith, signed_in_number id profile rows some_id)

created_free :
    (user_id : ℕ) (token ua ip : Text) (db db' : Db)
    → db.faults ≡ []
    → Users.create_browser_session user_id token ua ip db ≡ ok tt db'
    → is_token_taken token db.user_sessions ≡ false
unfolding Users.create_browser_session
created_free user_id token ua ip db db' answers h = ground (arith)

pub live_row_passes :
    {W : Type 0} (hash : Text → Text) (now : W → ℕ × W)
    (next : AuthenticatedSession → W → Reply × W) (env : Text) (from_loopback : Bool)
    (get : Text → M W BrowserSession) (token : Text) (user_id : ℕ) (row : BrowserSession)
    (w read : W)
    → (dev_auth_bypass_enabled env && from_loopback) ≡ false
    → is_empty token ≡ false
    → get (hash token) w ≡ ok row read
    → row.user_id ≡ user_id
    → user_id ≢ 0
    → (now read).0 ≤ row.expires_at
    → require_session_cookie hash now next env from_loopback (some get) (some token) w
      ≡ next (record { user_id = user_id; session_token = token }) (now read).1
unfolding require_session_cookie
live_row_passes hash now next env from_loopback get token user_id row w read off there got of_user
      user soon =
    rw (off, there, got) (ground (arith))

chosen : {A : Type 0} (c : Bool) (a b x : A) → c ≡ true → x ≡ (if c then a else b) → x ≡ a
chosen c a b x h e = ground arith

pub created_found :
    (user_id later : ℕ) (token ua ip : Text) (db db' : Db)
    → db.faults ≡ []
    → Users.create_browser_session user_id token ua ip db ≡ ok tt db'
    → later < db.current_timestamp + browser_session_days
    → (row : BrowserSession) × (Users.get_browser_session_by_token_hash token
          (record db' { current_timestamp = later })
        ≡ ok row (record db' { current_timestamp = later }))
      × (row.user_id ≡ user_id)
      × (row.expires_at ≡ db.current_timestamp + browser_session_days)
unfolding Users.new_browser_session
created_found user_id later token ua ip db db' answers h soon =
    let found =
      token_lookup user_id later token ua ip db answers
        (created_free user_id token ua ip db db' answers h) in
    let same = ap state (sym h) in
    (
      Users.new_browser_session db.next_user_session user_id token ua ip db,
      ap
            (λ (d : Db).
              Users.get_browser_session_by_token_hash token
                (record d { current_timestamp = later }))
            same
          ∙ (chosen (ltb later (db.current_timestamp + browser_session_days)) _ _ _ (ground arith)
                found.1
              ∙ ap
                  (λ (d : Db).
                    ok (Users.new_browser_session db.next_user_session user_id token ua ip db)
                      (record d { current_timestamp = later }))
                  (sym same)),
      refl,
      refl,
    )

pub hex_encode-empty : (bytes : List ℕ) → is_empty (hex_encode bytes) ≡ true → bytes ≡ []
unfolding hex_encode
hex_encode-empty [] h = refl
hex_encode-empty (b ∷ bytes) h = absurd cc
