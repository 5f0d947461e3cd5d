-- ===== src/Runner/Terminal/Manager/Exclusive.antt =====
-- One open terminal for each workspace (TerminalManager of
-- services/runner/internal/engine/terminal_sessions.go).
use git_gym.Prelude.{
  ℕ, suc, ◌≡◌, ◌<◌, ap, inl, inr, false, Option, none, some, List, [], ◌∷◌, Option-cases, arith,
}
use git_gym.Prelude.Text.{Text}
use git_gym.Runner.Terminal.Manager.{
  Terminal, Place, acquiring, releases, Manager, add_call, Event, call_acquire, call_release, turn,
  context_done, wakes, shell_starts, goes_on, shell_exits, step, run, new_terminal_manager,
}
use git_gym.Runner.Terminal.Manager.Invariant.{at_each, CallOk, ManagerInv}
use git_gym.Runner.Terminal.Manager.Release.{ended-ManagerInv}
use git_gym.Runner.Terminal.Manager.Turns.{
  with_call-ManagerInv, on_turn-ManagerInv, on_context_done-ManagerInv, on_wake-ManagerInv,
  on_shell-ManagerInv, on_go-ManagerInv,
}

-- A new call has no slot and no terminal yet.
add_call-ManagerInv :
    (id : Text) (p : Place) (m : Manager)
    → (m.slots m.next ≡ none
        → m.terminals m.next ≡ none
        → CallOk m.sessions m.slots m.terminals m.next id p)
    → ManagerInv m
    → ManagerInv (add_call id p m)
add_call-ManagerInv id p m known v = record {
  open_in = v.open_in;
  calls_in =
      at_each (λ j d. CallOk m.sessions m.slots m.terminals j d.workspace_id d.place) m.next _
        m.calls
        (known (below-none m.slots v.slots_below) (below-none m.terminals v.terminals_below))
        (λ j d other h. v.calls_in j d h);
  slots_in = v.slots_in;
  calls_below =
      at_each (λ j d. j < suc m.next) m.next _ m.calls (omega arith)
        (λ j d other h. omega (arith, v.calls_below j d h));
  slots_below = λ j s h. omega (arith, v.slots_below j s h);
  terminals_below = λ k t h. omega (arith, v.terminals_below k t h);
}
  where
    below-none :
        {V : Type 0} (f : ℕ → Option V)
        → ((j : ℕ) (x : V) → f j ≡ some x → j < m.next)
        → f m.next ≡ none
    below-none f below = elim (Option-cases (f m.next)) [
      | inl e ↦ e
      | inr (x, e) ↦ absurd (omega (arith, below m.next x e))
    ]

step-ManagerInv : (e : Event) (m : Manager) → ManagerInv m → ManagerInv (step e m)
unfolding step
step-ManagerInv (call_acquire id) m v = add_call-ManagerInv id acquiring m (λ s t. (s, t)) v
step-ManagerInv (call_release id) m v = add_call-ManagerInv id releases m (λ s t. tt) v
step-ManagerInv (turn i) m v =
    with_call-ManagerInv m _ i (λ c e. on_turn-ManagerInv i c m e v c.place (v.calls_in i c e)) v
step-ManagerInv (context_done i) m v =
    with_call-ManagerInv m _ i (λ c e. on_context_done-ManagerInv i c m e v c.place) v
step-ManagerInv (wakes i) m v =
    with_call-ManagerInv m _ i (λ c e. on_wake-ManagerInv i c m e v c.place (v.calls_in i c e)) v
step-ManagerInv (shell_starts i ok) m v =
    with_call-ManagerInv m _ i (λ c e. on_shell-ManagerInv i c m e v ok c.place (v.calls_in i c e))
      v
step-ManagerInv (goes_on i) m v =
    with_call-ManagerInv m _ i (λ c e. on_go-ManagerInv i c m e v c.place (v.calls_in i c e)) v
step-ManagerInv (shell_exits k) m v = ended-ManagerInv k m v

run-ManagerInv : (es : List Event) (m : Manager) → ManagerInv m → ManagerInv (run es m)
unfolding run
run-ManagerInv [] m v = v
run-ManagerInv (e ∷ es) m v = run-ManagerInv es (step e m) (step-ManagerInv e m v)

new-ManagerInv : ManagerInv new_terminal_manager
unfolding new_terminal_manager
new-ManagerInv = record {
  open_in = λ k t h. cc;
  calls_in = λ i c h. cc;
  slots_in = λ j s h. cc;
  calls_below = λ i c h. cc;
  slots_below = λ j s h. cc;
  terminals_below = λ k t h. cc;
}

-- After any events on a new manager, two terminals of one workspace that are not closed are the
-- same, and the map has the slot of their number for the workspace.
pub one_open_terminal :
    (es : List Event) (k l : ℕ) (t u : Terminal)
    → (run es new_terminal_manager).terminals k ≡ some t
    → (run es new_terminal_manager).terminals l ≡ some u
    → t.closed ≡ false
    → u.closed ≡ false
    → t.workspace_id ≡ u.workspace_id
    → (k ≡ l) × ((run es new_terminal_manager).sessions t.workspace_id ≡ some k)
one_open_terminal es k l t u at_k at_l open_k open_l same =
    let v = run-ManagerInv es new_terminal_manager new-ManagerInv in
    let mine = v.open_in k t at_k open_k in
    let other = v.open_in l u at_l open_l in
    (ground (arith, mine, other, ap (run es new_terminal_manager).sessions same), mine)
