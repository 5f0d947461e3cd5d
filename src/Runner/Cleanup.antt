-- ===== src/Runner/Cleanup.antt =====
-- WorkspaceCleanupManager of services/runner/internal/engine/workspace_cleanup.go. Each section under
-- the mutex is one step. A thread is a caller of Schedule that deletes at once, or the goroutine of
-- a delayed cleanup; its number stands for the pointer of its pending entry. A context is its
-- cancelled flag. What the terminals and the file system answer is part of the event.
pub mod Latest
use git_gym.Prelude.{
  ℕ, suc, ◌+◌, Bool, true, false, not, Option, none, some, List, [], ◌∷◌, ◌==◌, if◌then◌else◌,
}
use git_gym.Prelude.Text.{Text, text_eq, is_blank, ℤ, non_positive}

pub record CleanupRequest : Type 0 where
  pub workspace_id : Text
  pub path : Text
  pub reason : Text
  pub delete_after : ℤ

-- What `remove(path)` returns.
pub data RemoveOutcome : Type 0 where
  removed : RemoveOutcome
  not_exist : RemoveOutcome
  remove_failed : Text → RemoveOutcome

-- What the completion hook is told.
pub data Completion : Type 0 where
  superseded : Completion
  deleted_with : Option Text → Completion

-- A delayed cleanup waits; then the workspace is deleted, the result recorded, the hook told.
pub data Phase : Type 0 where
  waiting : Phase
  deleting : Phase
  deleted : Option Text → Phase
  finished : Completion → Phase

pub record Thread : Type 0 where
  pub request : CleanupRequest
  pub cancelled : Bool
  pub phase : Phase

pub record Manager : Type 0 where
  pub pending : Text → Option ℕ
  pub failures : Text → Option Text
  pub threads : ℕ → Option Thread
  pub next : ℕ

unfoldable pub new_manager : Manager
new_manager = record { pending = λ id. none; failures = λ id. none; threads = λ i. none; next = 0 }

-- `m[id] = v`, and `delete(m, id)` with `none`.
abbrev pub at_text : {V : Type 0} → Text → Option V → (Text → Option V) → Text → Option V
at_text id v m id' = if text_eq id id' then v else m id'

abbrev pub at_thread : ℕ → Option Thread → (ℕ → Option Thread) → ℕ → Option Thread
at_thread i v m j = if i == j then v else m j

-- `entry.cancel()`.
unfoldable pub cancel : Option ℕ → (ℕ → Option Thread) → ℕ → Option Thread
cancel none threads = threads
cancel (some i) threads = elim (threads i) [
  | none ↦ threads
  | some t ↦ at_thread i (some (record t { cancelled = true })) threads
]

unfoldable pub cancel_pending : Text → Manager → Manager
unfolding cancel
cancel_pending id m = record m {
  pending = at_text id none m.pending;
  threads = cancel (m.pending id) m.threads;
}

is_current : Option ℕ → ℕ → Bool
is_current none i = false
is_current (some j) i = j == i

-- The state behind beginPendingDelete, and whether it let the thread go on.
unfoldable pub begin_pending_delete : Text → ℕ → Manager → Manager × Bool
unfolding is_current
begin_pending_delete id i m =
    if is_current (m.pending id) i
    then (record m { pending = at_text id none m.pending }, true)
    else (m, false)

unfoldable pub clear_pending : Text → ℕ → Manager → Manager
unfolding is_current
clear_pending id i m =
    if is_current (m.pending id) i then record m { pending = at_text id none m.pending } else m

unfoldable pub record_cleanup_result : Text → Option Text → Manager → Manager
record_cleanup_result id error m = record m { failures = at_text id error m.failures }

-- deleteNow, from what releasing the terminal and removing the path return.
unfoldable pub delete_now : Option Text → RemoveOutcome → Option Text
delete_now (some error) outcome = some error
delete_now none removed = none
delete_now none not_exist = none
delete_now none (remove_failed error) = some error

abbrev pub set_phase : ℕ → Thread → Phase → Manager → Manager
set_phase i t phase m = record m {
  threads = at_thread i (some (record t { phase = phase })) m.threads;
}

abbrev pub add_thread : CleanupRequest → Phase → Manager → Manager
add_thread req phase m = record m {
  threads =
      at_thread m.next (some (record { request = req; cancelled = false; phase = phase }))
        m.threads;
  next = suc m.next;
}

-- The entry replaces the one that is pending, which is cancelled.
unfoldable pub schedule_later : CleanupRequest → Manager → Manager
unfolding cancel
schedule_later req m =
    let m' = record m { threads = cancel (m.pending req.workspace_id) m.threads } in
    record (add_thread req waiting m') {
      pending = at_text req.workspace_id (some m.next) m.pending;
    }

unfoldable pub schedule_now : CleanupRequest → Manager → Manager
unfolding cancel_pending
schedule_now req m = add_thread req deleting (cancel_pending req.workspace_id m)

pub data ScheduleError : Type 0 where
  context_done workspace_id_required workspace_path_required : ScheduleError

-- Why Schedule turns a request away.
unfoldable pub schedule_error : Bool → CleanupRequest → Option ScheduleError
schedule_error context_is_done req =
    if context_is_done
    then some context_done
    else (if is_blank req.workspace_id
        then some workspace_id_required
        else (if is_blank req.path then some workspace_path_required else none))

-- Schedule up to the delete or the start of the goroutine.
unfoldable pub schedule : Bool → CleanupRequest → Manager → Manager
unfolding schedule_error schedule_now schedule_later
schedule context_is_done req m = elim (schedule_error context_is_done req) [
  | some e ↦ m
  | none ↦ if non_positive req.delete_after then schedule_now req m else schedule_later req m
]

pub data Event : Type 0 where
  call_schedule : Bool → CleanupRequest → Event
  wake_cancelled : ℕ → Event
  timer_fires : ℕ → Event
  delete_returns : ℕ → Option Text → RemoveOutcome → Event
  result_recorded : ℕ → Event

-- `<-timerCtx.Done()`.
on_cancelled : ℕ → Thread → Bool → Phase → Manager → Manager
unfolding clear_pending
on_cancelled i t true waiting m =
    set_phase i t (finished superseded) (clear_pending t.request.workspace_id i m)
on_cancelled i t _ _ m = m

after_begin : ℕ → Thread → Manager × Bool → Manager
after_begin i t (m, true) = set_phase i t deleting m
after_begin i t (m, false) = set_phase i t (finished superseded) m

-- `<-m.after(req.DeleteAfter)`, which may also win against a context that is done.
on_timer : ℕ → Thread → Phase → Manager → Manager
unfolding begin_pending_delete after_begin
on_timer i t waiting m = after_begin i t (begin_pending_delete t.request.workspace_id i m)
on_timer i t _ m = m

on_deleted : ℕ → Thread → Option Text → Phase → Manager → Manager
on_deleted i t error deleting m = set_phase i t (deleted error) m
on_deleted i t error _ m = m

on_recorded : ℕ → Thread → Phase → Manager → Manager
unfolding record_cleanup_result
on_recorded i t (deleted error) m =
    set_phase i t (finished (deleted_with error))
      (record_cleanup_result t.request.workspace_id error m)
on_recorded i t _ m = m

abbrev with_thread : Option Thread → Manager → (Thread → Manager) → Manager
with_thread none m f = m
with_thread (some t) m f = f t

-- An event of a thread that is not in the phase for it changes nothing.
unfoldable pub step : Event → Manager → Manager
unfolding schedule on_cancelled on_timer on_deleted on_recorded delete_now
step (call_schedule context_is_done req) m = schedule context_is_done req m
step (wake_cancelled i) m = with_thread (m.threads i) m λ t. on_cancelled i t t.cancelled t.phase m
step (timer_fires i) m = with_thread (m.threads i) m λ t. on_timer i t t.phase m
step (delete_returns i released outcome) m =
    with_thread (m.threads i) m λ t. on_deleted i t (delete_now released outcome) t.phase m
step (result_recorded i) m = with_thread (m.threads i) m λ t. on_recorded i t t.phase m

unfoldable pub run : List Event → Manager → Manager
unfolding step
run [] m = m
run (e ∷ es) m = run es (step e m)
