-- ===== src/Runner/Workspace/Delay.antt =====
-- The delay that DeleteWorkspace (deletes.go) hands to Schedule (workspace_cleanup.go).
use git_gym.Prelude.{ℕ, ◌≡◌, ◌≢◌, ◌<◌, refl, false, none, some, arith, ltb, if◌then◌else◌}
use git_gym.Prelude.Text.{Text, codes, is_blank, non_positive, pos}
use git_gym.Runner.Cleanup.{Manager, Thread, waiting, deleting, schedule}
use git_gym.Runner.Workspace.Delete.{
  delete_after, int_64, cleanup_request, delete_workspace, at_path, with_body, with_delay,
  scheduled, Decoded, decoded,
}
use git_gym.Runner.Workspace.{PathEnv, found, resolve_workspace_path}

abbrev pub longest_delay : ℕ
longest_delay = 9_223_372_036

delay_sign :
    (seconds : ℕ)
    → 0 < seconds
    → seconds < 18_446_744_074
    → non_positive (delete_after seconds) ≡ ltb longest_delay seconds
unfolding delete_after int_64
delay_sign seconds some_delay bound = ground arith

-- The thread that Schedule starts for the request.
thread_started :
    (id path reason : Text) (seconds : ℕ) (m : Manager)
    → is_blank id ≡ false
    → is_blank path ≡ false
    → 0 < seconds
    → seconds < 18_446_744_074
    → let req = cleanup_request id path reason seconds in
      (schedule false req m).threads m.next
      ≡ some (record {
        request = req;
        cancelled = false;
        phase = if ltb longest_delay seconds then deleting else waiting;
      })
unfolding schedule cleanup_request
thread_started id path reason seconds m has_id has_path some_delay bound =
    ground (arith, delay_sign seconds some_delay bound)

-- A resolved path and a delay that is not 0 get status 202 where Schedule gives no error.
accepted_now :
    (m : Manager) (path id reason : Text) (seconds : ℕ)
    → seconds ≢ 0
    → with_body
        (λ req m'. (none, schedule false req m'))
        id
        path
        false
        (decoded (record { reason = reason; delete_after_seconds = pos seconds }))
        m
      ≡ (
        record { status = 202; message = codes "cleanup_scheduled" },
        schedule false (cleanup_request id path reason seconds) m,
      )
unfolding with_body with_delay scheduled
accepted_now m path id reason seconds some_delay = ground arith

-- Where the path of the workspace is resolved, id and path are not blank, Schedule gives no error
-- and the body asks for a delay of 1 to 18446744073 seconds, DeleteWorkspace replies with status
-- 202, and the thread that Schedule starts for this path waits where the delay is at most 9223372036
-- seconds, and deletes at once where it is longer.
pub long_delay_deletes_now :
    (env : PathEnv) (work_root id path reason : Text) (seconds : ℕ) (m : Manager)
    → is_blank id ≡ false
    → is_blank path ≡ false
    → resolve_workspace_path env work_root id ≡ found path
    → 0 < seconds
    → seconds < 18_446_744_074
    → let body : Decoded =
        decoded (record { reason = reason; delete_after_seconds = pos seconds }) in
      let out =
        delete_workspace (λ req m'. (none, schedule false req m')) env work_root id body m in
      (out.0.status ≡ 202)
      × (t : Thread) × (out.1.threads m.next ≡ some t)
      × (t.request.path ≡ path)
      × (t.phase ≡ (if ltb 9_223_372_036 seconds then deleting else waiting))
unfolding delete_workspace at_path
long_delay_deletes_now env work_root id path reason seconds m has_id has_path there some_delay
      bound =
    let started = thread_started id path reason seconds m has_id has_path some_delay bound in
    rw (there, accepted_now m path id reason seconds (omega arith)) (refl, _, started, refl, refl)
