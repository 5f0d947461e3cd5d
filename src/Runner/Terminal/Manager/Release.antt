-- ===== src/Runner/Terminal/Manager/Release.antt =====
-- The sections of Release, and the end of a shell, keep what holds of TerminalManager
-- (services/runner/internal/engine/terminal_sessions.go).
use git_gym.Prelude.{
  ℕ, ◌≡◌, ◌<◌, refl, ap, inl, inr, true, false, none, some, ◌==◌, ==_iff, Bool-cases, Option-cases,
  arith,
}
use git_gym.Runner.Terminal.Manager.{
  Slot, active, releasing, Call, Manager, without_slot, begin_release, end_terminal, is_open,
}
use git_gym.Runner.Terminal.Manager.Invariant.{
  at_each, CallOk, SlotOk, ManagerInv, same_text, keeps-CallOk,
}

pub begun-ManagerInv :
    (i : ℕ) (c : Call) (j : ℕ) (s : Slot) (m : Manager)
    → m.calls i ≡ some c
    → m.slots j ≡ some s
    → s.state ≡ active
    → ManagerInv m
    → ManagerInv (begin_release i c j s m)
unfolding begin_release
begun-ManagerInv i c j s m here at_j running v = record {
  open_in = v.open_in;
  calls_in =
      at_each
        (λ k d.
          CallOk m.sessions (begin_release i c j s m).slots m.terminals k d.workspace_id d.place)
        i _ m.calls
        (
          record s { state = releasing; released = false },
          ground arith,
          refl,
          v.slots_in j s at_j running,
        )
        (λ k d other h.
          keeps-CallOk m (begin_release i c j s m) k d.workspace_id (λ e. ground arith) (λ e. e)
            (λ mine started. (mine, ground arith))
            (λ l u at_l gone. (u, ground arith, gone, λ e. e)) d.place (v.calls_in k d h));
  slots_in = at_each SlotOk j _ m.slots (λ e. cc) (λ k u other h. v.slots_in k u h);
  calls_below =
      at_each (λ k d. k < m.next) i _ m.calls (v.calls_below i c here)
        (λ k d other h. v.calls_below k d h);
  slots_below =
      at_each (λ k u. k < m.next) j _ m.slots (v.slots_below j s at_j)
        (λ k u other h. v.slots_below k u h);
  terminals_below = v.terminals_below;
}

no_terminal : (k l : ℕ) (m : Manager) → m.terminals l ≡ none → (end_terminal k m).terminals l ≡ none
unfolding end_terminal
no_terminal k l m e = elim (Bool-cases (k == l)) [
  | inl hit ↦ rw hit (let same = ap m.terminals ((==_iff k l).0 hit) in ground arith)
  | inr miss ↦ rw miss e
]

-- A terminal that is closed stays in the map; nothing else changes.
pub ended-ManagerInv : (k : ℕ) (m : Manager) → ManagerInv m → ManagerInv (end_terminal k m)
unfolding end_terminal
ended-ManagerInv k m v = record {
  open_in = λ l t h running. ground (arith, v.open_in l t, v.open_in k);
  calls_in = λ j d h.
      keeps-CallOk m (end_terminal k m) j d.workspace_id (λ e. e) (λ e. ground arith)
        (λ mine started. (mine, started)) (λ l u at_l gone. (u, at_l, gone, λ e. ground arith))
        d.place (v.calls_in j d h);
  slots_in = v.slots_in;
  calls_below = v.calls_below;
  slots_below = v.slots_below;
  terminals_below = λ l t h. elim (Option-cases (m.terminals l)) [
    | inl e ↦ cc (no_terminal k l m e, h)
    | inr (u, e) ↦ v.terminals_below l u e
  ];
}

pub removed-ManagerInv :
    (i : ℕ) (c : Call) (j : ℕ) (s : Slot) (m : Manager)
    → m.calls i ≡ some c
    → m.slots j ≡ some s
    → s.state ≡ releasing
    → is_open (m.terminals j) ≡ false
    → ManagerInv m
    → ManagerInv (without_slot i c j s m)
unfolding without_slot
removed-ManagerInv i c j s m here at_j gone over v = record {
  open_in = λ k t h running.
      ground (arith, v.open_in k t h running, same_text c.workspace_id t.workspace_id m.sessions);
  calls_in =
      at_each
        (λ k d.
          CallOk (without_slot i c j s m).sessions (without_slot i c j s m).slots m.terminals k
            d.workspace_id d.place)
        i _ m.calls tt
        (λ k d other h.
          keeps-CallOk m (without_slot i c j s m) k d.workspace_id (λ e. ground arith) (λ e. e)
            (λ mine started. ground (arith, same_text c.workspace_id d.workspace_id m.sessions))
            (λ l u at_l leaving. elim (Bool-cases (j == l)) [
              | inl hit ↦ (record s { released = true }, ground arith, gone, λ e. e)
              | inr miss ↦ (u, ground arith, leaving, λ e. e)
            ])
            d.place (v.calls_in k d h));
  slots_in = at_each SlotOk j _ m.slots (λ e. ground arith) (λ k u other h. v.slots_in k u h);
  calls_below =
      at_each (λ k d. k < m.next) i _ m.calls (v.calls_below i c here)
        (λ k d other h. v.calls_below k d h);
  slots_below =
      at_each (λ k u. k < m.next) j _ m.slots (v.slots_below j s at_j)
        (λ k u other h. v.slots_below k u h);
  terminals_below = v.terminals_below;
}
