-- ===== src/Runner/Disk/Handlers.antt =====
-- The handlers CreateWorkspace (workspaces.go), ResetWorkspace (resets.go), RepoState
-- (repo_state.go) and RunCommand (commands.go) of services/runner/internal/http/handlers.
pub mod Created
use git_gym.Prelude.{Option, none, some, ℕ, not, ◌&&◌, [], if◌then◌else◌}
use git_gym.Prelude.Text.{Text, codes, is_empty, text_eq}
use git_gym.Prelude.Result.{Result, ok, err}
use git_gym.Runner.Command.Run.{Snapshot, CommandResult, EngineError, Machine, run_plain}
use git_gym.Runner.Workspace.{
  PathEnv, PathError, not_exist, path_error, Found, found, failed, resolve_workspace_path,
}
use git_gym.Runner.Disk.{
  Disk, Workspace, create_workspace, reset_workspace_contents, capture_snapshot,
}

-- What the JSON decoder returns; the end of an empty body leaves the zero value.
pub data Decoded : Type 0 where
  template : Text → Decoded
  end_of_body : Decoded
  malformed : Decoded

pub data Body : Type 0 where
  created : Workspace → Body
  resetting : Text → Body
  repo_state : Snapshot → Body
  error_text : Text → Body
  completed : Text → Text → CommandResult → Body
  command_error : EngineError → Body

pub record Reply : Type 0 where
  pub status : ℕ
  pub body : Body

abbrev failure : {W : Type 0} → ℕ → Text → W → Reply × W
failure status text w = (record { status = status; body = error_text text }, w)

-- `writeWorkspaceError`.
workspace_failure : {W : Type 0} → PathError → W → Reply × W
workspace_failure not_exist = failure 404 (codes "workspace not found")
workspace_failure (path_error e) = failure 400 e

module _ {W : Type 0} (disk : Disk W) where
  create_reply : Result Text Workspace × W → Reply × W
  create_reply (ok workspace, w) = (record { status = 201; body = created workspace }, w)
  create_reply (err e, w) = failure 500 (codes "Internal Server Error") w

  of_template : Text → Text → W → Reply × W
  unfolding create_reply text_eq
  of_template work_root name w =
      if not (is_empty name) && not (text_eq name (codes "standard"))
      then failure 400 (codes "unknown template") w
      else create_reply (create_workspace disk work_root w)

  unfoldable pub create_workspace_handler : Text → Decoded → W → Reply × W
  unfolding of_template
  create_workspace_handler work_root (template name) = of_template work_root name
  create_workspace_handler work_root end_of_body = of_template work_root []
  create_workspace_handler work_root malformed = failure 400 (codes "Bad Request")

  reset_reply : Text → Result Text (Unit {0}) × W → Reply × W
  reset_reply workspace_id (ok u, w) = (record { status = 202; body = resetting workspace_id }, w)
  reset_reply workspace_id (err e, w) = failure 500 e w

  reset_at : Text → Found Text → W → Reply × W
  unfolding reset_reply workspace_failure
  reset_at workspace_id (found path) w =
      reset_reply workspace_id (reset_workspace_contents disk path w)
  reset_at workspace_id (failed e) w = workspace_failure e w

  unfoldable pub reset_workspace : PathEnv → Text → Text → W → Reply × W
  unfolding reset_at
  reset_workspace env work_root workspace_id =
      reset_at workspace_id (resolve_workspace_path env work_root workspace_id)

  state_reply : Result Text Snapshot × W → Reply × W
  state_reply (ok snapshot, w) = (record { status = 200; body = repo_state snapshot }, w)
  state_reply (err e, w) = failure 500 e w

  state_at : Found Text → W → Reply × W
  unfolding state_reply workspace_failure
  state_at (found path) w = state_reply (capture_snapshot disk path w)
  state_at (failed e) w = workspace_failure e w

  unfoldable pub repo_state_handler : PathEnv → Text → Text → W → Reply × W
  unfolding state_at
  repo_state_handler env work_root workspace_id =
      state_at (resolve_workspace_path env work_root workspace_id)

-- RunCommand; the command is what the JSON decoder returns, `none` where it fails.
module _ {W : Type 0} (machine : Text → Machine W) where
  command_reply : Text → Text → Result EngineError CommandResult × W → Reply × W
  command_reply workspace_id command (ok result, w) =
      (record { status = 200; body = completed workspace_id command result }, w)
  command_reply workspace_id command (err e, w) =
      (record { status = 400; body = command_error e }, w)

  command_at : Text → Option Text → Found Text → W → Reply × W
  unfolding command_reply workspace_failure
  command_at workspace_id body (failed e) w = workspace_failure e w
  command_at workspace_id none (found path) w = failure 400 (codes "invalid JSON body") w
  command_at workspace_id (some command) (found path) w =
      command_reply workspace_id command (run_plain (machine path) command w)

  unfoldable pub run_command_handler : PathEnv → Text → Text → Option Text → W → Reply × W
  unfolding command_at
  run_command_handler env work_root workspace_id body =
      command_at workspace_id body (resolve_workspace_path env work_root workspace_id)
