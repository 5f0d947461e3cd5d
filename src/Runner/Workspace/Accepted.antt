-- ===== src/Runner/Workspace/Accepted.antt =====
-- What a reply of DeleteWorkspace (deletes.go) says of the cleanup.
use git_gym.Prelude.{ℕ, ◌≡◌, ◌≢◌, refl, Bool, true, false, Option, none, some, [], arith}
use git_gym.Prelude.Text.{Text, ℤ, pos, negsuc}
use git_gym.Runner.Cleanup.{CleanupRequest}
use git_gym.Runner.Workspace.{
  PathEnv, Found, found, failed, not_exist, path_error, resolve_workspace_path,
}
use git_gym.Runner.Workspace.Delete.{
  Decoded, decoded, end_of_body, malformed, Answer, cleanup_request, delete_workspace, scheduled,
  with_delay, with_body, at_path, at_cleanup_path, workspace_error,
}

module _ {W : Type 0} (schedule : CleanupRequest → W → Option Text × W) where
  -- Schedule took the cleanup of the path, with a delay of `seconds`.
  abbrev pub TakesCleanup : Text → Text → ℕ → W → W → Type 0
  TakesCleanup workspace_id path seconds w w' =
      (reason : Text) × (schedule (cleanup_request workspace_id path reason seconds) w ≡ (none, w'))

  scheduled_202 :
      (missing : Bool) (seconds : ℕ) (out : Option Text × W) (a : Answer) (w' : W)
      → scheduled schedule missing seconds out ≡ (a, w')
      → a.status ≡ 202
      → (missing ≡ false) × (seconds ≢ 0) × (out ≡ (none, w'))
  unfolding scheduled
  scheduled_202 missing seconds (some e, w) a w' h s = ground arith
  scheduled_202 true seconds (none, w) a w' h s = ground arith
  scheduled_202 false seconds (none, w) a w' h s = ground arith

  body_202 :
      (workspace_id path : Text) (missing : Bool) (body : Decoded) (w w' : W) (a : Answer)
      → with_body schedule workspace_id path missing body w ≡ (a, w')
      → a.status ≡ 202
      → (missing ≡ false)
        × (seconds : ℕ) × (seconds ≢ 0)
        × TakesCleanup workspace_id path seconds w w'
  unfolding with_body with_delay
  body_202 workspace_id path missing malformed w w' a h s = ground arith
  body_202 workspace_id path missing end_of_body w w' a h s =
      let (_, some_delay, _) =
        scheduled_202 missing 0 (schedule (cleanup_request workspace_id path [] 0) w) a w' h s in
      absurd (some_delay refl)
  body_202 workspace_id path missing (decoded req) w w' a h s = delayed req.delete_after_seconds h
    where
      delayed :
          (seconds : ℤ)
          → with_delay schedule workspace_id path missing req.reason seconds w ≡ (a, w')
          → (missing ≡ false) × (n : ℕ) × (n ≢ 0) × TakesCleanup workspace_id path n w w'
      delayed (negsuc n) k = ground arith
      delayed (pos n) k =
          let (there, some_delay, done) =
            scheduled_202 missing n (schedule (cleanup_request workspace_id path req.reason n) w) a
              w' k s in
          (there, n, some_delay, (req.reason, done))

  cleanup_202 :
      (workspace_id : Text) (body : Decoded) (out : Found Text) (w w' : W) (a : Answer)
      → at_cleanup_path schedule workspace_id body out w ≡ (a, w')
      → a.status ≢ 202
  unfolding at_cleanup_path workspace_error
  cleanup_202 workspace_id body (found path) w w' a h s =
      ground (arith, body_202 workspace_id path true body w w' a h s)
  cleanup_202 workspace_id body (failed not_exist) w w' a h s = ground arith
  cleanup_202 workspace_id body (failed (path_error e)) w w' a h s = ground arith

  -- Where DeleteWorkspace replies with status 202, the path of the workspace was resolved, and
  -- Schedule took the cleanup of that path without an error, for a number of seconds that is not 0.
  pub accepted_delete_scheduled :
      (env : PathEnv) (work_root workspace_id : Text) (body : Decoded) (w w' : W) (a : Answer)
      → delete_workspace schedule env work_root workspace_id body w ≡ (a, w')
      → a.status ≡ 202
      → (path : Text) × (seconds : ℕ) × (resolve_workspace_path env work_root workspace_id
          ≡ found path)
        × (seconds ≢ 0)
        × TakesCleanup workspace_id path seconds w w'
  unfolding delete_workspace at_path workspace_error
  accepted_delete_scheduled env work_root workspace_id body w w' a h s =
      at (resolve_workspace_path env work_root workspace_id) refl h
    where
      at :
          (out : Found Text)
          → resolve_workspace_path env work_root workspace_id ≡ out
          → at_path schedule env work_root workspace_id body out w ≡ (a, w')
          → (path : Text) × (seconds : ℕ) × (resolve_workspace_path env work_root workspace_id
              ≡ found path)
            × (seconds ≢ 0)
            × TakesCleanup workspace_id path seconds w w'
      at (found path) got k =
          let (_, seconds, some_delay, done) = body_202 workspace_id path false body w w' a k s in
          (path, seconds, got, some_delay, done)
      at (failed not_exist) got k = absurd (cleanup_202 workspace_id body _ w w' a k s)
      at (failed (path_error e)) got k = ground arith
