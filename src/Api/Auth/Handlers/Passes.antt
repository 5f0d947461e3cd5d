-- ===== src/Api/Auth/Handlers/Passes.antt =====
-- What a cookie that GitHubCallback (http/handlers/auth.go) set is worth to RequireSessionCookie
-- (middleware/session.go), over the tables of mysql.go.
use git_gym.Prelude.Text.{Text}
use git_gym.Api.Mysql.Users
use git_gym.Api.Mysql.Users.{any_user, is_token_taken}
use git_gym.Api.Mysql.SignIn
use git_gym.Api.Http.Reply.{Reply}
use git_gym.Api.Auth.Request.{Request}
use git_gym.Api.Auth.Site.{Site}
