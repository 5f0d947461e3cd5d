-- ===== src/Api/Mysql/SignIn.antt =====
-- UpsertGitHubUser of MySQLStore (mysql.go) and the look-ups of a user.
use git_gym.Prelude.{ℕ, ◌≡◌, true, false, Option, none, some, List, [], ◌∷◌, ◌++◌, arith, keep}
use git_gym.Api.Errors.{ok, state}
use git_gym.Api.Mysql.Tables.{Db, CurrentUser, update_where, first_of}
use git_gym.Api.Mysql.Users.{
  GitHubProfile, profiled, new_user, of_github, any_user, upserted_user, get_user_by_git_hub_id,
  upsert_git_hub_user,
}

-- The row of the user behind the sign-in.
abbrev pub signed_in : ℕ → GitHubProfile → Option CurrentUser → CurrentUser
signed_in id profile none = new_user id profile
signed_in id profile (some u) = profiled profile u

first_updated :
    (id : ℕ) (profile : GitHubProfile) (rows : List CurrentUser)
    → any_user (of_github profile.id) rows ≡ true
    → first_of
        (keep (of_github profile.id) (update_where (of_github profile.id) (profiled profile) rows))
      ≡ some (signed_in id profile (first_of (keep (of_github profile.id) rows)))
unfolding profiled
first_updated id profile [] h = absurd cc
first_updated id profile (u ∷ rows) h = ground (arith, first_updated id profile rows)

first_added :
    (id : ℕ) (profile : GitHubProfile) (rows : List CurrentUser)
    → any_user (of_github profile.id) rows ≡ false
    → (first_of (keep (of_github profile.id) rows) ≡ none)
      × (first_of (keep (of_github profile.id) (rows ++ new_user id profile ∷ []))
          ≡ some (new_user id profile))
unfolding new_user
first_added id profile [] h = ground arith
first_added id profile (u ∷ rows) h = ground (arith, first_added id profile rows)

pub sign_in_row :
    (id : ℕ) (profile : GitHubProfile) (rows : List CurrentUser)
    → first_of (keep (of_github profile.id) (upserted_user id profile rows))
      ≡ some (signed_in id profile (first_of (keep (of_github profile.id) rows)))
unfolding upserted_user
sign_in_row id profile rows =
    ground (arith, first_updated id profile rows, first_added id profile rows)

-- Where no statement fails, UpsertGitHubUser returns the id of the user with that GitHub id, which
-- is the next number where there was none, and a look-up by the GitHub id then gives that user with
-- the texts of the profile.
pub sign_in :
    (profile : GitHubProfile) (db : Db)
    → db.faults ≡ []
    → let u = signed_in db.next_user profile (first_of (keep (of_github profile.id) db.users)) in
      let after = state (upsert_git_hub_user profile db) in
      (upsert_git_hub_user profile db ≡ ok u.id after)
      × (get_user_by_git_hub_id profile.id after ≡ ok u after)
unfolding upsert_git_hub_user get_user_by_git_hub_id
sign_in profile db answers = ground (arith, sign_in_row db.next_user profile db.users)
