-- ===== src/Runner/Workspace/Delete.antt =====
-- DeleteWorkspace of services/runner/internal/http/handlers/deletes.go.
use git_gym.Prelude.{
  ℕ, ◌-◌, ◌*◌, ◌%◌, ◌^◌, Bool, true, false, Option, none, some, [], ltb, ◌==◌, if◌then◌else◌,
}
use git_gym.Prelude.Text.{Text, codes, ℤ, pos, negsuc}
use git_gym.Runner.Cleanup.{CleanupRequest}
use git_gym.Runner.Workspace.{
  PathError, not_exist, path_error, Found, found, failed, PathEnv, resolve_workspace_path,
  resolve_workspace_cleanup_path,
}

pub record DeleteWorkspaceRequest : Type 0 where
  pub reason : Text
  pub delete_after_seconds : ℤ

-- What the JSON decoder returns; the end of an empty body leaves the zero value.
pub data Decoded : Type 0 where
  decoded : DeleteWorkspaceRequest → Decoded
  end_of_body : Decoded
  malformed : Decoded

pub record Answer : Type 0 where
  pub status : ℕ
  pub message : Text

-- An int64 with the bits of a number.
unfoldable pub int_64 : ℕ → ℤ
int_64 n = let low = n % 2 ^ 64 in if ltb low (2 ^ 63) then pos low else negsuc (2 ^ 64 - 1 - low)

-- `time.Duration(req.DeleteAfterSeconds) * time.Second`, where the seconds are not negative.
unfoldable pub delete_after : ℕ → ℤ
unfolding int_64
delete_after seconds = int_64 (seconds * 1_000_000_000)

unfoldable pub cleanup_request : Text → Text → Text → ℕ → CleanupRequest
unfolding delete_after
cleanup_request workspace_id path reason seconds = record {
  workspace_id = workspace_id;
  path = path;
  reason = reason;
  delete_after = delete_after seconds;
}

unfoldable pub workspace_error : PathError → Answer
workspace_error not_exist = record { status = 404; message = codes "workspace not found" }
workspace_error (path_error e) = record { status = 400; message = e }

module _ {W : Type 0} (schedule : CleanupRequest → W → Option Text × W) where
  unfoldable pub scheduled : Bool → ℕ → Option Text × W → Answer × W
  scheduled missing seconds (some e, w) = (record { status = 500; message = e }, w)
  scheduled true seconds (none, w) =
      (record { status = 404; message = codes "workspace not found" }, w)
  scheduled false seconds (none, w) =
      if seconds == 0
      then (record { status = 204; message = [] }, w)
      else (record { status = 202; message = codes "cleanup_scheduled" }, w)

  unfoldable pub with_delay : Text → Text → Bool → Text → ℤ → W → Answer × W
  unfolding cleanup_request scheduled
  with_delay workspace_id path missing reason (negsuc n) w =
      (record { status = 400; message = codes "delete_after_seconds must be non-negative" }, w)
  with_delay workspace_id path missing reason (pos seconds) w =
      scheduled missing seconds (schedule (cleanup_request workspace_id path reason seconds) w)

  unfoldable pub with_body : Text → Text → Bool → Decoded → W → Answer × W
  unfolding with_delay
  with_body workspace_id path missing (decoded req) w =
      with_delay workspace_id path missing req.reason req.delete_after_seconds w
  with_body workspace_id path missing end_of_body w =
      with_delay workspace_id path missing [] (pos 0) w
  with_body workspace_id path missing malformed w =
      (record { status = 400; message = codes "invalid JSON body" }, w)

  unfoldable pub at_cleanup_path : Text → Decoded → Found Text → W → Answer × W
  unfolding with_body workspace_error
  at_cleanup_path workspace_id body (found path) w = with_body workspace_id path true body w
  at_cleanup_path workspace_id body (failed e) w = (workspace_error e, w)

  unfoldable pub at_path : PathEnv → Text → Text → Decoded → Found Text → W → Answer × W
  unfolding at_cleanup_path with_body workspace_error resolve_workspace_cleanup_path
  at_path env work_root workspace_id body (found path) w = with_body workspace_id path false body w
  at_path env work_root workspace_id body (failed not_exist) w =
      at_cleanup_path workspace_id body (resolve_workspace_cleanup_path env work_root workspace_id)
        w
  at_path env work_root workspace_id body (failed (path_error e)) w =
      (workspace_error (path_error e), w)

  unfoldable pub delete_workspace : PathEnv → Text → Text → Decoded → W → Answer × W
  unfolding at_path resolve_workspace_path
  delete_workspace env work_root workspace_id body w =
      at_path env work_root workspace_id body (resolve_workspace_path env work_root workspace_id) w
