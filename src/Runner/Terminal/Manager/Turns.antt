-- ===== src/Runner/Terminal/Manager/Turns.antt =====
-- Each step of a call keeps what holds of TerminalManager
-- (services/runner/internal/engine/terminal_sessions.go).
use git_gym.Prelude.{
  ℕ, ◌≡◌, refl, ap, sym, ◌∙◌, inl, inr, Bool, true, false, Option, none, some, if◌then◌else◌,
  Bool-cases, Option-cases, arith,
}
use mathlib.Core.Path.{subst}
use git_gym.Runner.Terminal.Manager.{
  Slot, SlotState, starting, active, releasing, Place, acquiring, waits_ready, waits_released,
  starts_shell, shell_started, acquired, acquire_failed, releases, release_waits_ready,
  release_waits_released, closing, closed, release_done, Call, Manager, move, start_slot,
  acquire_at, acquire_turn, publish, release_at, release_turn, close_session, remove_slot,
  end_terminal, is_slot, is_open, open_session, on_turn, on_context_done, on_wake, on_shell, on_go,
  with_call, with_slot,
}
use git_gym.Runner.Terminal.Manager.Invariant.{CallOk, ManagerInv, move-ManagerInv}
use git_gym.Runner.Terminal.Manager.Acquire.{
  start_slot-ManagerInv, born-ManagerInv, published-ManagerInv, dropped-ManagerInv,
}
use git_gym.Runner.Terminal.Manager.Release.{begun-ManagerInv, ended-ManagerInv, removed-ManagerInv}

-- A case for each thing that may stand where a pointer is followed.
with_slot-ManagerInv :
    (m : Manager) (f : Slot → Manager) (j : ℕ)
    → ((s : Slot) → m.slots j ≡ some s → ManagerInv (f s))
    → ManagerInv m
    → ManagerInv (with_slot (m.slots j) m f)
with_slot-ManagerInv m f j each v = elim (Option-cases (m.slots j)) [
  | inl e ↦ subst (λ o. ManagerInv (with_slot o m f)) (sym e) v
  | inr (s, e) ↦ subst (λ o. ManagerInv (with_slot o m f)) (sym e) (each s e)
]

pub with_call-ManagerInv :
    (m : Manager) (f : Call → Manager) (i : ℕ)
    → ((c : Call) → m.calls i ≡ some c → ManagerInv (f c))
    → ManagerInv m
    → ManagerInv (with_call (m.calls i) m f)
with_call-ManagerInv m f i each v = elim (Option-cases (m.calls i)) [
  | inl e ↦ subst (λ o. ManagerInv (with_call o m f)) (sym e) v
  | inr (c, e) ↦ subst (λ o. ManagerInv (with_call o m f)) (sym e) (each c e)
]

-- A call that does not move where a channel is not closed.
when-ManagerInv :
    (b : Bool) (m m' : Manager) → ManagerInv m' → ManagerInv m → ManagerInv (if b then m' else m)
when-ManagerInv true m m' v' v = v'
when-ManagerInv false m m' v' v = v

closed_over :
    (k j : ℕ) (m : Manager)
    → ◌≡◌ {A = Option ℕ} (some k) (some j)
    → is_open ((end_terminal k m).terminals j) ≡ false
unfolding end_terminal
closed_over k j m same = ground arith

module _ (i : ℕ) (c : Call) (m : Manager) (here : m.calls i ≡ some c) (v : ManagerInv m) where
  go_to :
      (place : Place)
      → CallOk m.sessions m.slots m.terminals i c.workspace_id place
      → ManagerInv (move i c place m)
  go_to place known = move-ManagerInv i c place m here known v

  acquire_at-ManagerInv :
      (j : ℕ) (s : Slot) (st : SlotState)
      → (m.slots i ≡ none) × (m.terminals i ≡ none)
      → m.sessions c.workspace_id ≡ some j
      → m.slots j ≡ some s
      → s.state ≡ st
      → ManagerInv (acquire_at i c j s st m)
  unfolding acquire_at
  acquire_at-ManagerInv j s starting new own at_j st = go_to (waits_ready j) new
  acquire_at-ManagerInv j s releasing new own at_j st = go_to (waits_released j) new
  acquire_at-ManagerInv j s active new own at_j st = elim (Bool-cases (is_open (m.terminals j))) [
    | inl running ↦ subst found (sym (session_is ∙ ap answer running)) (go_to (acquired j) tt)
    | inr over ↦ subst found (sym (session_is ∙ ap answer over)) (
        start_slot-ManagerInv i c m here new.0 new.1
          (λ l e. ((λ u at_l first. ground arith), ground arith)) v)
  ]
    where
      found : Option ℕ → Type 0
      found o = ManagerInv (elim o [ some k ↦ move i c (acquired k) m | none ↦ start_slot i c m ])

      answer : Bool → Option ℕ
      answer b = if b then some j else none

      session_is : open_session m s.session ≡ answer (is_open (m.terminals j))
      session_is = ap (open_session m) (v.slots_in j s at_j st)

  acquire_turn-ManagerInv :
      (o : Option ℕ)
      → (m.slots i ≡ none) × (m.terminals i ≡ none)
      → m.sessions c.workspace_id ≡ o
      → ManagerInv (acquire_turn i c o m)
  unfolding acquire_turn
  acquire_turn-ManagerInv none new own = start_slot-ManagerInv i c m here new.0 new.1 (λ j e. cc) v
  acquire_turn-ManagerInv (some j) new own =
      with_slot-ManagerInv m _ j (λ s e. acquire_at-ManagerInv j s s.state new own e refl) v

  release_at-ManagerInv :
      (j : ℕ) (s : Slot) (st : SlotState)
      → m.slots j ≡ some s
      → s.state ≡ st
      → ManagerInv (release_at i c j s st m)
  unfolding release_at
  release_at-ManagerInv j s starting at_j st = go_to (release_waits_ready j) tt
  release_at-ManagerInv j s releasing at_j st = go_to (release_waits_released j) tt
  release_at-ManagerInv j s active at_j st = begun-ManagerInv i c j s m here at_j st v

  release_turn-ManagerInv : (o : Option ℕ) → ManagerInv (release_turn i c o m)
  unfolding release_turn
  release_turn-ManagerInv none = go_to release_done tt
  release_turn-ManagerInv (some j) =
      with_slot-ManagerInv m _ j (λ s e. release_at-ManagerInv j s s.state e refl) v

  pub on_turn-ManagerInv :
      (p : Place)
      → CallOk m.sessions m.slots m.terminals i c.workspace_id p
      → ManagerInv (on_turn i c p m)
  unfolding on_turn
  on_turn-ManagerInv acquiring known =
      acquire_turn-ManagerInv (m.sessions c.workspace_id) known refl
  on_turn-ManagerInv releases known = release_turn-ManagerInv (m.sessions c.workspace_id)
  on_turn-ManagerInv _ known = v

  pub on_context_done-ManagerInv : (p : Place) → ManagerInv (on_context_done i c p m)
  unfolding on_context_done
  on_context_done-ManagerInv acquiring = go_to acquire_failed tt
  on_context_done-ManagerInv (waits_ready j) = go_to acquire_failed tt
  on_context_done-ManagerInv (waits_released j) = go_to acquire_failed tt
  on_context_done-ManagerInv _ = v

  pub on_wake-ManagerInv :
      (p : Place)
      → CallOk m.sessions m.slots m.terminals i c.workspace_id p
      → ManagerInv (on_wake i c p m)
  unfolding on_wake
  on_wake-ManagerInv (waits_ready j) known = when-ManagerInv _ m _ (go_to acquiring known) v
  on_wake-ManagerInv (waits_released j) known = when-ManagerInv _ m _ (go_to acquiring known) v
  on_wake-ManagerInv (release_waits_ready j) known = when-ManagerInv _ m _ (go_to releases tt) v
  on_wake-ManagerInv (release_waits_released j) known =
      when-ManagerInv _ m _ (go_to release_done tt) v
  on_wake-ManagerInv _ known = v

  pub on_shell-ManagerInv :
      (ok : Bool) (p : Place)
      → CallOk m.sessions m.slots m.terminals i c.workspace_id p
      → ManagerInv (on_shell i c ok p m)
  unfolding on_shell
  on_shell-ManagerInv true starts_shell known = born-ManagerInv i c m here known v
  on_shell-ManagerInv false starts_shell known = go_to (shell_started false) known
  on_shell-ManagerInv _ _ known = v

  publish-ManagerInv :
      (ok : Bool)
      → CallOk m.sessions m.slots m.terminals i c.workspace_id (shell_started ok)
      → ManagerInv (publish i c true ok m)
  unfolding publish
  publish-ManagerInv true known =
      with_slot-ManagerInv m _ i (λ s e. published-ManagerInv i c s m here e known v) v
  publish-ManagerInv false known =
      with_slot-ManagerInv m _ i (λ s e. dropped-ManagerInv i c s m here e known v) v

  own_slot :
      (ok : Bool)
      → CallOk m.sessions m.slots m.terminals i c.workspace_id (shell_started ok)
      → is_slot (m.sessions c.workspace_id) i ≡ true
  own_slot true known = ground (arith, known.0)
  own_slot false known = ground (arith, known.0)

  close_session-ManagerInv :
      (j : ℕ) (session : Option ℕ)
      → CallOk m.sessions m.slots m.terminals i c.workspace_id (closing j session)
      → ManagerInv (close_session i c j session m)
  unfolding close_session end_terminal
  close_session-ManagerInv j none (s, at_j, gone, same) = cc
  close_session-ManagerInv j (some k) (s, at_j, gone, same) =
      move-ManagerInv i c (closed j) (end_terminal k m) here (s, at_j, gone, closed_over k j m same)
        (ended-ManagerInv k m v)

  pub on_go-ManagerInv :
      (p : Place)
      → CallOk m.sessions m.slots m.terminals i c.workspace_id p
      → ManagerInv (on_go i c p m)
  unfolding on_go
  on_go-ManagerInv (shell_started ok) known =
      subst (λ b. ManagerInv (publish i c b ok m)) (sym (own_slot ok known))
        (publish-ManagerInv ok known)
  on_go-ManagerInv (closing j session) known = close_session-ManagerInv j session known
  on_go-ManagerInv (closed j) (s, at_j, gone, over) =
      unfold remove_slot in
      with_slot-ManagerInv m _ j (λ u e. removed-ManagerInv i c j u m here e (ground arith) over v)
        v
  on_go-ManagerInv _ known = v
