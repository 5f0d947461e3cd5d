-- ===== src/Api/RunnerClient/Wire.antt =====
-- HTTPClient.DeleteWorkspace (services/api/internal/runner/client.go) against DeleteWorkspace of the
-- runner (services/runner/internal/http/handlers/deletes.go).
use git_gym.Prelude.{
  ℕ, ◌*◌, ◌/◌, ◌^◌, ◌<◌, ◌≡◌, refl, ap, Bool, true, false, ◌||◌, Option, none, some, [], ◌++◌,
  arith, ◌==◌,
}
use git_gym.Prelude.Text.{Text, pos}
use git_gym.Api.Errors.{ok}
use git_gym.Api.RunnerClient.{
  Transport, Response, delete, delete_payload, delete_workspace, delete_after_seconds,
  workspace_route, check_status, configured_for, send, configured,
}
use git_gym.Runner.Cleanup.{CleanupRequest}
use git_gym.Runner.Workspace.{
  PathEnv, Found, found, failed, not_exist, path_error, resolve_workspace_path,
}
use git_gym.Runner.Workspace.Delete as Handler
use git_gym.Runner.Workspace.Delete.{Answer, decoded, cleanup_request, delete_after, int_64}

-- The delay that the runner hands to Schedule for one that the client was given.
pub delay_over_wire :
    (delay : ℕ)
    → delay < 2 ^ 63
    → delete_after (delete_after_seconds delay) ≡ pos (delay / 1_000_000_000 * 1_000_000_000)
unfolding delete_after int_64 delete_after_seconds
delay_over_wire delay bound = ground arith

abbrev takes : ℕ → Bool
takes status = status == 202 || status == 204

client_ok :
    {W Conn : Type 0} (transport : Transport W Conn) (base_url id reason : Text) (delay : ℕ)
    (response : Response) (w read w' : W)
    → transport.do_request
        (record {
          method = delete;
          url = base_url ++ workspace_route transport base_url id [];
          payload = delete_payload reason (delete_after_seconds delay);
        })
        w
      ≡ ok response read
    → delete_workspace transport base_url id reason delay w ≡ ok tt w'
    → (takes response.status ≡ true) × (read ≡ w')
unfolding delete_workspace configured_for configured send check_status
client_ok transport base_url id reason delay response w read w' sent h = ground (arith)

module _ {W : Type 0} (schedule : CleanupRequest → W → Option Text × W) where
  scheduled_taken :
      (missing : Bool) (seconds : ℕ) (out : Option Text × W) (a : Answer) (w' : W)
      → Handler.scheduled schedule missing seconds out ≡ (a, w')
      → takes a.status ≡ true
      → (missing ≡ false) × (out ≡ (none, w'))
  unfolding Handler.scheduled
  scheduled_taken missing seconds (some e, w) a w' h s = ground arith
  scheduled_taken true seconds (none, w) a w' h s = ground arith
  scheduled_taken false seconds (none, w) a w' h s = ground arith

  body_taken :
      (id path reason : Text) (seconds : ℕ) (missing : Bool) (w w' : W) (a : Answer)
      → Handler.with_body schedule id path missing
          (decoded (record { reason = reason; delete_after_seconds = pos seconds }))
          w
        ≡ (a, w')
      → takes a.status ≡ true
      → (missing ≡ false) × (schedule (cleanup_request id path reason seconds) w ≡ (none, w'))
  unfolding Handler.with_body Handler.with_delay
  body_taken id path reason seconds missing w w' a h s =
      scheduled_taken missing seconds (schedule (cleanup_request id path reason seconds) w) a w' h s

  cleanup_refused :
      (id reason : Text) (seconds : ℕ) (out : Found Text) (w w' : W) (a : Answer)
      → Handler.at_cleanup_path schedule id
          (decoded (record { reason = reason; delete_after_seconds = pos seconds }))
          out
          w
        ≡ (a, w')
      → takes a.status ≡ false
  unfolding Handler.at_cleanup_path Handler.workspace_error
  cleanup_refused id reason seconds (found path) w w' a h =
      ground (arith, body_taken id path reason seconds true w w' a h)
  cleanup_refused id reason seconds (failed not_exist) w w' a h = ground arith
  cleanup_refused id reason seconds (failed (path_error e)) w w' a h = ground arith

  delete_taken :
      (env : PathEnv) (work_root id reason : Text) (seconds : ℕ) (w w' : W) (a : Answer)
      → Handler.delete_workspace schedule env work_root id
          (decoded (record { reason = reason; delete_after_seconds = pos seconds }))
          w
        ≡ (a, w')
      → takes a.status ≡ true
      → (path : Text) × (resolve_workspace_path env work_root id ≡ found path)
        × (schedule (cleanup_request id path reason seconds) w ≡ (none, w'))
  unfolding Handler.delete_workspace Handler.at_path Handler.workspace_error
  delete_taken env work_root id reason seconds w w' a h s =
      at (resolve_workspace_path env work_root id) refl h
    where
      at :
          (out : Found Text)
          → resolve_workspace_path env work_root id ≡ out
          → Handler.at_path schedule env work_root id
              (decoded (record { reason = reason; delete_after_seconds = pos seconds }))
              out
              w
            ≡ (a, w')
          → (path : Text) × (resolve_workspace_path env work_root id ≡ found path)
            × (schedule (cleanup_request id path reason seconds) w ≡ (none, w'))
      at (found path) got k = (path, got, (body_taken id path reason seconds false w w' a k s).1)
      at (failed not_exist) got k =
          absurd (ground (arith, cleanup_refused id reason seconds _ w w' a k))
      at (failed (path_error e)) got k = absurd (ground arith)

  -- The runner's handler on a request of the client's.
  abbrev pub handled : PathEnv → Text → Text → Text → ℕ → W → Answer × W
  handled env work_root id reason delay = Handler.delete_workspace schedule env work_root id (
      decoded (record { reason = reason; delete_after_seconds = pos (delete_after_seconds delay) }))

  module _ {Conn : Type 0} (transport : Transport W Conn) (base_url : Text) (env : PathEnv)
      (work_root id reason : Text) (delay : ℕ)
      -- The request of DeleteWorkspace is served by the runner's handler.
      (served : (w : W)
        → let out = handled env work_root id reason delay w in
          (body : Text) × (transport.do_request
              (record {
                method = delete;
                url = base_url ++ workspace_route transport base_url id [];
                payload = delete_payload reason (delete_after_seconds delay);
              })
              w
            ≡ ok (record { status = out.0.status; body = body }) out.1)) where
    -- Where the requests of the client are served by DeleteWorkspace of the runner, and the delay
    -- fits an int64, a DeleteWorkspace of the client that returns no error means that the runner
    -- resolved the path of the workspace, and that Schedule took a request for this id and path
    -- without an error, with the delay rounded down to whole seconds.
    pub deleted_over_wire :
        (w w' : W)
        → delay < 2 ^ 63
        → delete_workspace transport base_url id reason delay w ≡ ok tt w'
        → (path : Text) × (req : CleanupRequest) × (resolve_workspace_path env work_root id
            ≡ found path)
          × (req.workspace_id ≡ id)
          × (req.path ≡ path)
          × (req.delete_after ≡ pos (delay / 1_000_000_000 * 1_000_000_000))
          × (schedule req w ≡ (none, w'))
    unfolding cleanup_request
    deleted_over_wire w w' bound h =
        let sent = served w in
        let taken = client_ok transport base_url id reason delay _ w _ w' sent.1 h in
        let done =
          delete_taken env work_root id reason (delete_after_seconds delay) w w' _
            (ap (λ v. ((handled env work_root id reason delay w).0, v)) taken.1) taken.0 in
        (
          done.0,
          cleanup_request id done.0 reason (delete_after_seconds delay),
          done.1,
          refl,
          refl,
          delay_over_wire delay bound,
          done.2,
        )
