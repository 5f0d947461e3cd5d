-- ===== src/Runner/Workspace/Examples.antt =====
-- The theorems on workspace paths and delays at concrete inputs.
use git_gym.Prelude.{
  ◌≢◌, ◌+◌, Option, ℕ, ◌≡◌, ◌++◌, refl, true, false, some, none, ◌∷◌, All, arith, ◌==◌,
}
use git_gym.Prelude.Text.{Text, codes, is_blank, pos}
use git_gym.Runner.Cleanup.{CleanupRequest, Thread, new_manager, schedule, deleting}
use git_gym.Runner.Workspace.{PathEnv, found, resolve_workspace_path}
use git_gym.Runner.Workspace.Delete.{delete_workspace, Decoded, decoded}
use git_gym.Runner.Workspace.Delay.{long_delay_deletes_now}
use git_gym.Runner.Workspace.Accepted.{TakesCleanup, accepted_delete_scheduled}
use git_gym.Runner.Workspace.Inside.{StaysBelow, resolved_path_inside}

-- A root "/w" with a directory for every id.
abbrev unix : PathEnv
unix = record {
  abs = λ p. found p;
  join = λ root id. root ++ b'/' ∷ id;
  rel = λ root p. found (codes "ws-a");
  separator = b'/';
  stat = λ p. found true;
}

-- 10 ^ 10 seconds, over 300 years.
abbrev far_request : Decoded
far_request =
    decoded (record { reason = codes "expired"; delete_after_seconds = pos 10_000_000_000 })

long_delay_deletes_now_example :
    let out =
      delete_workspace
        (λ req m. (none, schedule false req m))
        unix
        (codes "/w")
        (codes "ws-a")
        far_request
        new_manager in
    (out.0.status ≡ 202)
    × (t : Thread) × (out.1.threads 0 ≡ some t)
    × (t.request.path ≡ codes "/w/ws-a")
    × (t.phase ≡ deleting)
unfolding is_blank resolve_workspace_path new_manager
long_delay_deletes_now_example =
    long_delay_deletes_now unix (codes "/w") (codes "ws-a") (codes "/w/ws-a") (codes "expired")
      10_000_000_000 new_manager refl refl refl (omega arith) (omega arith)

resolved_path_inside_example :
    All
      (λ c. ((c == b'/') ≡ false) × (((c == b'\\') ≡ false) × ((c == b'.') ≡ false)))
      (codes "ws-a")
    × StaysBelow unix (codes "/w") (codes "ws-a") (codes "/w/ws-a")
    × (unix.stat (codes "/w/ws-a") ≡ found true)
unfolding resolve_workspace_path
resolved_path_inside_example =
    resolved_path_inside unix (codes "/w") (codes "ws-a") (codes "/w/ws-a") refl

-- A Schedule that takes every cleanup and counts it.
abbrev count : CleanupRequest → ℕ → Option Text × ℕ
count req w = (none, w + 1)

accepted_delete_scheduled_example :
    (path : Text) × (seconds : ℕ) × (resolve_workspace_path unix (codes "/w") (codes "ws-a")
      ≡ found path)
    × (seconds ≢ 0)
    × TakesCleanup count (codes "ws-a") path seconds 0 1
unfolding delete_workspace
accepted_delete_scheduled_example =
    accepted_delete_scheduled count unix (codes "/w") (codes "ws-a")
      (decoded (record { reason = codes "expired"; delete_after_seconds = pos 60 })) 0 1
      (record { status = 202; message = codes "cleanup_scheduled" }) refl refl
