-- ===== src/Runner/Cleanup/Latest.antt =====
-- A delayed cleanup that a later request for its workspace has replaced, in
-- services/runner/internal/engine/workspace_cleanup.go.
use mathlib.Core.Path.{subst}
use git_gym.Prelude.{
  ℕ, ◌<◌, ◌≡◌, ◌≢◌, refl, ap, sym, ◌∙◌, ◌⊎◌, inl, inr, Bool, true, false, Option, none, some, List,
  [], ◌∷◌, ◌==◌, if◌then◌else◌, arith, ==_iff, Option-cases, Bool-cases,
}
use git_gym.Prelude.Text.{Text, text_eq_refl, non_positive}
use git_gym.Runner.Cleanup.{
  Manager, Thread, CleanupRequest, Phase, waiting, deleting, deleted, deleted_with, finished,
  superseded, Event, call_schedule, wake_cancelled, timer_fires, delete_returns, result_recorded,
  cancel, schedule_now, schedule_later, schedule, schedule_error, ScheduleError, step, run,
  at_thread, at_text, begin_pending_delete, clear_pending, with_thread, on_cancelled, on_timer,
  on_deleted, on_recorded, delete_now, is_current, record_cleanup_result, cancel_pending,
}

-- Thread `i` is a cleanup of the workspace that waits or was superseded, and the entry that is
-- pending for the workspace is not its.
abbrev pub IsStale : ℕ → Text → Manager → Type 0
IsStale i id m =
    (t : Thread) × (m.threads i ≡ some t)
    × (t.request.workspace_id ≡ id)
    × ((t.phase ≡ waiting) ⊎ (t.phase ≡ finished superseded))
    × (m.pending id ≢ some i)
    × (i < m.next)

cancel_keeps :
    (o : Option ℕ) (threads : ℕ → Option Thread) (i : ℕ) (t : Thread)
    → threads i ≡ some t
    → (t' : Thread) × (cancel o threads i ≡ some t')
      × (t'.request ≡ t.request)
      × (t'.phase ≡ t.phase)
unfolding cancel
cancel_keeps none threads i t h = (t, h, refl, refl)
cancel_keeps (some j) threads i t h = elim (Option-cases (threads j)) [
  | inl e ↦ (t, rw (e, cancel) h, refl, refl)
  | inr (u, e) ↦ elim (Bool-cases (j == i)) [
    | inl hit ↦ (
      record t { cancelled = true },
      rw (e, cancel) (ground (arith, ap threads ((==_iff j i).0 hit))),
      refl,
      refl,
    )
    | inr miss ↦ (t, rw (e, cancel) (rw miss h), refl, refl)
  ]
]

unfresh : (m : Manager) (i : ℕ) → i < m.next → (m.next == i) ≡ false
unfresh m i h = ground arith

-- A phase that a stale cleanup may be in.
abbrev Rests : Phase → Type 0
Rests p = (p ≡ waiting) ⊎ (p ≡ finished superseded)

same_rest : (p q : Phase) → q ≡ p → Rests p → Rests q
same_rest p q e r = rw e r

-- A new thread takes the next number, so the old ones stay where they are.
kept_by_add :
    (m : Manager) (o : Option ℕ) (fresh : Thread) (i : ℕ) (t : Thread)
    → m.threads i ≡ some t
    → i < m.next
    → (t' : Thread) × (at_thread m.next (some fresh) (cancel o m.threads) i ≡ some t')
      × (t'.request ≡ t.request)
      × (t'.phase ≡ t.phase)
kept_by_add m o fresh i t at below =
    let (t', at', same_request, same_phase) = cancel_keeps o m.threads i t at in
    (t', rw (unfresh m i below) at', same_request, same_phase)

schedule_later-IsStale :
    (req : CleanupRequest) (m : Manager) (i : ℕ) (id : Text)
    → IsStale i id m
    → IsStale i id (schedule_later req m)
unfolding schedule_later
schedule_later-IsStale req m i id (t, at, ws, phase, other, below) =
    let (t', at', same_request, same_phase) =
      kept_by_add m (m.pending req.workspace_id) _ i t at below in
    (
      t',
      at',
      ap (λ r. r.workspace_id) same_request ∙ ws,
      same_rest t.phase t'.phase same_phase phase,
      (λ h. ground arith),
      omega arith,
    )

schedule_now-IsStale :
    (req : CleanupRequest) (m : Manager) (i : ℕ) (id : Text)
    → IsStale i id m
    → IsStale i id (schedule_now req m)
unfolding schedule_now
schedule_now-IsStale req m i id (t, at, ws, phase, other, below) =
    let (t', at', same_request, same_phase) =
      kept_by_add m (m.pending req.workspace_id) _ i t at below in
    (
      t',
      at',
      ap (λ r. r.workspace_id) same_request ∙ ws,
      same_rest t.phase t'.phase same_phase phase,
      (λ h. ground arith),
      omega arith,
    )

schedule-IsStale :
    (done : Bool) (req : CleanupRequest) (m : Manager) (i : ℕ) (id : Text)
    → IsStale i id m
    → IsStale i id (schedule done req m)
schedule-IsStale done req m i id h =
    unfold schedule in go (schedule_error done req) (non_positive req.delete_after)
  where
    go :
        (e : Option ScheduleError) (b : Bool)
        → IsStale i id
            (elim e [ some x ↦ m | none ↦ if b then schedule_now req m else schedule_later req m ])
    go (some x) b = h
    go none true = schedule_now-IsStale req m i id h
    go none false = schedule_later-IsStale req m i id h

-- Another thread moves on, or this one is superseded.
moved-IsStale :
    (m : Manager) (i j : ℕ) (id : Text) (u : Thread) (p : Phase)
    → m.threads j ≡ some u
    → (i ≡ j → Rests p)
    → IsStale i id m
    → IsStale i id (record m { threads = at_thread j (some (record u { phase = p })) m.threads })
moved-IsStale m i j id u p e rests (t, at, ws, phase, other, below) = elim (Bool-cases (j == i)) [
  | inl hit ↦
      let same_number = (==_iff j i).0 hit in
      let same : u ≡ t = cc (e, at, ap m.threads same_number) in
      (
        record u { phase = p },
        rw hit,
        ap (λ x. x.request.workspace_id) same ∙ ws,
        rests (sym same_number),
        other,
        below,
      )
  | inr miss ↦ (t, rw miss at, ws, phase, other, below)
]

-- An entry is taken out of the map.
dropped-IsStale :
    (m : Manager) (i : ℕ) (id ws : Text)
    → IsStale i id m
    → IsStale i id (record m { pending = at_text ws none m.pending })
dropped-IsStale m i id ws (t, at, same, phase, other, below) =
    (t, at, same, phase, (λ h. ground arith), below)

on_cancelled-IsStale :
    (m : Manager) (i j : ℕ) (id : Text) (u : Thread) (c : Bool) (p : Phase)
    → m.threads j ≡ some u
    → IsStale i id m
    → IsStale i id (on_cancelled j u c p m)
unfolding on_cancelled
on_cancelled-IsStale m i j id u true waiting e h =
    elim (Bool-cases (is_current (m.pending u.request.workspace_id) j)) [
      | inl yours ↦
          rw (yours, clear_pending)
            (moved-IsStale (record m { pending = at_text u.request.workspace_id none m.pending }) i
              j id u (finished superseded) e (λ _. inr refl)
              (dropped-IsStale m i id u.request.workspace_id h))
      | inr not_yours ↦
          rw (not_yours, clear_pending)
            (moved-IsStale m i j id u (finished superseded) e (λ _. inr refl) h)
    ]
on_cancelled-IsStale m i j id u false p e h = h
on_cancelled-IsStale m i j id u true _ e h = h

not_current :
    (m : Manager) (i j : ℕ) (id : Text) (u : Thread)
    → m.threads j ≡ some u
    → is_current (m.pending u.request.workspace_id) j ≡ true
    → IsStale i id m
    → i ≢ j
unfolding is_current
not_current m i j id u e yours (t, at, ws, phase, other, below) same =
    let it : u ≡ t = cc (e, at, ap m.threads same) in
    ground (arith, ap (λ x. m.pending x.request.workspace_id) it, ap m.pending ws)

on_timer-IsStale :
    (m : Manager) (i j : ℕ) (id : Text) (u : Thread) (p : Phase)
    → m.threads j ≡ some u
    → IsStale i id m
    → IsStale i id (on_timer j u p m)
unfolding on_timer
on_timer-IsStale m i j id u waiting e h =
    elim (Bool-cases (is_current (m.pending u.request.workspace_id) j)) [
      | inl yours ↦
          rw (yours, begin_pending_delete)
            (moved-IsStale (record m { pending = at_text u.request.workspace_id none m.pending }) i
              j id u deleting e (λ same. absurd (not_current m i j id u e yours h same))
              (dropped-IsStale m i id u.request.workspace_id h))
      | inr not_yours ↦
          rw (not_yours, begin_pending_delete)
            (moved-IsStale m i j id u (finished superseded) e (λ _. inr refl) h)
    ]
on_timer-IsStale m i j id u _ e h = h

rest_not_deleted :
    (m : Manager) (i j : ℕ) (id : Text) (u : Thread)
    → m.threads j ≡ some u
    → IsStale i id m
    → i ≡ j
    → Rests u.phase
rest_not_deleted m i j id u e (t, at, ws, phase, other, below) same =
    let it : t ≡ u = cc (e, at, ap m.threads same) in subst (λ x. Rests x.phase) it phase

on_deleted-IsStale :
    (m : Manager) (i j : ℕ) (id : Text) (u : Thread) (error : Option Text) (p : Phase)
    → m.threads j ≡ some u
    → u.phase ≡ p
    → IsStale i id m
    → IsStale i id (on_deleted j u error p m)
unfolding on_deleted
on_deleted-IsStale m i j id u error deleting e at h =
    moved-IsStale m i j id u (deleted error) e
      (λ same. ground (arith, rest_not_deleted m i j id u e h same, at)) h
on_deleted-IsStale m i j id u error waiting e at h = h
on_deleted-IsStale m i j id u error (deleted _) e at h = h
on_deleted-IsStale m i j id u error (finished _) e at h = h

on_recorded-IsStale :
    (m : Manager) (i j : ℕ) (id : Text) (u : Thread) (p : Phase)
    → m.threads j ≡ some u
    → u.phase ≡ p
    → IsStale i id m
    → IsStale i id (on_recorded j u p m)
unfolding on_recorded record_cleanup_result
on_recorded-IsStale m i j id u (deleted error) e at h =
    let keeps = record_cleanup_result u.request.workspace_id error m in
    moved-IsStale keeps i j id u (finished (deleted_with error)) e
      (λ same. ground (arith, rest_not_deleted m i j id u e h same, at)) h
on_recorded-IsStale m i j id u waiting e at h = h
on_recorded-IsStale m i j id u deleting e at h = h
on_recorded-IsStale m i j id u (finished _) e at h = h

with_thread-IsStale :
    (i : ℕ) (id : Text) (m : Manager) (f : Thread → Manager) (j : ℕ)
    → ((u : Thread) → m.threads j ≡ some u → IsStale i id (f u))
    → IsStale i id m
    → IsStale i id (with_thread (m.threads j) m f)
with_thread-IsStale i id m f j each h = elim (Option-cases (m.threads j)) [
  | inl e ↦ subst (λ o. IsStale i id (with_thread o m f)) (sym e) h
  | inr (u, e) ↦ subst (λ o. IsStale i id (with_thread o m f)) (sym e) (each u e)
]

step-IsStale :
    (e : Event) (m : Manager) (i : ℕ) (id : Text) → IsStale i id m → IsStale i id (step e m)
unfolding step
step-IsStale (call_schedule done req) m i id h = schedule-IsStale done req m i id h
step-IsStale (wake_cancelled j) m i id h =
    with_thread-IsStale i id m _ j (λ u e. on_cancelled-IsStale m i j id u u.cancelled u.phase e h)
      h
step-IsStale (timer_fires j) m i id h =
    with_thread-IsStale i id m _ j (λ u e. on_timer-IsStale m i j id u u.phase e h) h
step-IsStale (delete_returns j released outcome) m i id h =
    with_thread-IsStale i id m _ j
      (λ u e. on_deleted-IsStale m i j id u (delete_now released outcome) u.phase e refl h) h
step-IsStale (result_recorded j) m i id h =
    with_thread-IsStale i id m _ j (λ u e. on_recorded-IsStale m i j id u u.phase e refl h) h

run-IsStale :
    (es : List Event) (m : Manager) (i : ℕ) (id : Text) → IsStale i id m → IsStale i id (run es m)
unfolding run
run-IsStale [] m i id h = h
run-IsStale (e ∷ es) m i id h = run-IsStale es (step e m) i id (step-IsStale e m i id h)

accepted_schedule :
    (req : CleanupRequest) (m : Manager)
    → schedule_error false req ≡ none
    → schedule false req m
      ≡ (if non_positive req.delete_after then schedule_now req m else schedule_later req m)
unfolding schedule
accepted_schedule req m accepted =
    ap
      (λ e. elim e [
        | some x ↦ m
        | none ↦ if non_positive req.delete_after then schedule_now req m else schedule_later req m
      ])
      accepted

replaced :
    (req : CleanupRequest) (m : Manager) (i : ℕ) (t : Thread) (now : Bool)
    → m.threads i ≡ some t
    → t.phase ≡ waiting
    → i < m.next
    → t.request.workspace_id ≡ req.workspace_id
    → IsStale i req.workspace_id (if now then schedule_now req m else schedule_later req m)
unfolding schedule_now schedule_later cancel_pending
replaced req m i t true at phase below same =
    let (t', at', same_request, same_phase) =
      kept_by_add m (m.pending req.workspace_id) _ i t at below in
    (
      t',
      at',
      ap (λ r. r.workspace_id) same_request ∙ same,
      same_rest t.phase t'.phase same_phase (inl phase),
      ground (arith, text_eq_refl req.workspace_id),
      omega arith,
    )
replaced req m i t false at phase below same =
    let (t', at', same_request, same_phase) =
      kept_by_add m (m.pending req.workspace_id) _ i t at below in
    (
      t',
      at',
      ap (λ r. r.workspace_id) same_request ∙ same,
      same_rest t.phase t'.phase same_phase (inl phase),
      ground (arith, text_eq_refl req.workspace_id),
      omega arith,
    )

-- Once a request for a workspace is accepted, a cleanup of that workspace that was still waiting
-- never deletes it: whatever the callers, timers, contexts and deletes do afterwards and in whatever
-- order, it is still waiting or has finished as superseded.
pub superseded_never_deletes :
    (es : List Event) (req : CleanupRequest) (m : Manager) (i : ℕ) (t : Thread)
    → schedule_error false req ≡ none
    → m.threads i ≡ some t
    → t.phase ≡ waiting
    → i < m.next
    → t.request.workspace_id ≡ req.workspace_id
    → (t' : Thread) × ((run (call_schedule false req ∷ es) m).threads i ≡ some t')
      × (t'.request.workspace_id ≡ req.workspace_id)
      × ((t'.phase ≡ waiting) ⊎ (t'.phase ≡ finished superseded))
unfolding run step
superseded_never_deletes es req m i t accepted at phase below same =
    let (t', at', ws, rests, other, below') =
      run-IsStale es (schedule false req m) i req.workspace_id (
        subst (IsStale i req.workspace_id) (sym (accepted_schedule req m accepted))
          (replaced req m i t (non_positive req.delete_after) at phase below same)) in
    (t', at', ws, rests)
