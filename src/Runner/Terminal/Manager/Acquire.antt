-- ===== src/Runner/Terminal/Manager/Acquire.antt =====
-- The sections of Acquire keep what holds of TerminalManager (services/runner/internal/engine/terminal_sessions.go).
use git_gym.Prelude.{ℕ, ◌≡◌, ◌≢◌, ◌<◌, refl, true, false, none, some, arith}
use git_gym.Prelude.Text.{text_eq_refl}
use git_gym.Runner.Terminal.Manager.{
  Slot, starting, starts_shell, shell_started, Call, Manager, at, at_text, with_shell,
  publish_session, drop_slot, fresh_slot, start_slot, is_open,
}
use git_gym.Runner.Terminal.Manager.Invariant.{
  at_each, CallOk, OpenIn, SlotOk, ManagerInv, same_text, keeps-CallOk,
}

-- A new slot, where the workspace has none or one whose terminal has ended.
pub start_slot-ManagerInv :
    (i : ℕ) (c : Call) (m : Manager)
    → m.calls i ≡ some c
    → m.slots i ≡ none
    → m.terminals i ≡ none
    → ((j : ℕ)
        → m.sessions c.workspace_id ≡ some j
        → ((s : Slot) → m.slots j ≡ some s → s.state ≢ starting)
          × (is_open (m.terminals j) ≡ false))
    → ManagerInv m
    → ManagerInv (start_slot i c m)
unfolding start_slot
start_slot-ManagerInv i c m here new unborn free v = record {
  open_in = λ k t h running.
      ground (
        arith,
        v.open_in k t h running,
        same_text c.workspace_id t.workspace_id m.sessions,
        free k,
      );
  calls_in =
      at_each
        (λ j d.
          CallOk (at_text c.workspace_id (some i) m.sessions) (at i (some fresh_slot) m.slots)
            m.terminals j d.workspace_id d.place)
        i _ m.calls (ground (arith, text_eq_refl c.workspace_id))
        (λ j d other h.
          keeps-CallOk m (start_slot i c m) j d.workspace_id (λ e. ground arith) (λ e. e)
            (λ mine fresh. ground (
              arith,
              same_text c.workspace_id d.workspace_id m.sessions,
              λ (e : m.sessions c.workspace_id ≡ some j). (free j e).0 fresh_slot,
            ))
            (λ k s at_k gone. (s, ground arith, gone, λ e. e)) d.place (v.calls_in j d h));
  slots_in = at_each SlotOk i fresh_slot m.slots (λ e. cc) (λ j s other h. v.slots_in j s h);
  calls_below =
      at_each (λ j d. j < m.next) i _ m.calls (v.calls_below i c here)
        (λ j d other h. v.calls_below j d h);
  slots_below =
      at_each (λ j s. j < m.next) i fresh_slot m.slots (v.calls_below i c here)
        (λ j s other h. v.slots_below j s h);
  terminals_below = v.terminals_below;
}

-- The shell has started: the slot of the call gets its terminal.
pub born-ManagerInv :
    (i : ℕ) (c : Call) (m : Manager)
    → m.calls i ≡ some c
    → CallOk m.sessions m.slots m.terminals i c.workspace_id starts_shell
    → ManagerInv m
    → ManagerInv (with_shell i c m)
unfolding with_shell
born-ManagerInv i c m here (own, fresh, unborn) v = record {
  open_in =
      at_each (OpenIn m.sessions m.slots m.terminals) i _ m.terminals (λ e. own)
        (λ k t other h. v.open_in k t h);
  calls_in =
      at_each
        (λ j d. CallOk m.sessions m.slots (with_shell i c m).terminals j d.workspace_id d.place) i _
        m.calls (own, fresh)
        (λ j d other h.
          keeps-CallOk m (with_shell i c m) j d.workspace_id (λ e. e) (λ e. ground arith)
            (λ mine started. (mine, started)) (λ k s at_k gone. (s, at_k, gone, λ e. ground arith))
            d.place (v.calls_in j d h));
  slots_in = v.slots_in;
  calls_below =
      at_each (λ j d. j < m.next) i _ m.calls (v.calls_below i c here)
        (λ j d other h. v.calls_below j d h);
  slots_below = v.slots_below;
  terminals_below =
      at_each (λ k t. k < m.next) i _ m.terminals (v.calls_below i c here)
        (λ k t other h. v.terminals_below k t h);
}

-- The session is published in the slot.
pub published-ManagerInv :
    (i : ℕ) (c : Call) (s : Slot) (m : Manager)
    → m.calls i ≡ some c
    → m.slots i ≡ some s
    → CallOk m.sessions m.slots m.terminals i c.workspace_id (shell_started true)
    → ManagerInv m
    → ManagerInv (publish_session i c s m)
unfolding publish_session
published-ManagerInv i c s m here at_i (own, fresh) v = record {
  open_in = v.open_in;
  calls_in =
      at_each
        (λ j d.
          CallOk m.sessions (publish_session i c s m).slots m.terminals j d.workspace_id d.place)
        i _ m.calls tt
        (λ j d other h.
          keeps-CallOk m (publish_session i c s m) j d.workspace_id (λ e. ground arith) (λ e. e)
            (λ mine started. (mine, ground arith))
            (λ k u at_k gone. (u, ground arith, gone, λ e. e)) d.place (v.calls_in j d h));
  slots_in = at_each SlotOk i _ m.slots (λ e. refl) (λ j u other h. v.slots_in j u h);
  calls_below =
      at_each (λ j d. j < m.next) i _ m.calls (v.calls_below i c here)
        (λ j d other h. v.calls_below j d h);
  slots_below =
      at_each (λ j u. j < m.next) i _ m.slots (v.calls_below i c here)
        (λ j u other h. v.slots_below j u h);
  terminals_below = v.terminals_below;
}

-- The shell did not start: the slot is taken out.
pub dropped-ManagerInv :
    (i : ℕ) (c : Call) (s : Slot) (m : Manager)
    → m.calls i ≡ some c
    → m.slots i ≡ some s
    → CallOk m.sessions m.slots m.terminals i c.workspace_id (shell_started false)
    → ManagerInv m
    → ManagerInv (drop_slot i c s m)
unfolding drop_slot
dropped-ManagerInv i c s m here at_i (own, fresh, unborn) v = record {
  open_in = λ k t h running.
      ground (arith, v.open_in k t h running, same_text c.workspace_id t.workspace_id m.sessions);
  calls_in =
      at_each
        (λ j d.
          CallOk (drop_slot i c s m).sessions (drop_slot i c s m).slots m.terminals j d.workspace_id
            d.place)
        i _ m.calls tt
        (λ j d other h.
          keeps-CallOk m (drop_slot i c s m) j d.workspace_id (λ e. ground arith) (λ e. e)
            (λ mine started. ground (arith, same_text c.workspace_id d.workspace_id m.sessions))
            (λ k u at_k gone. (u, ground arith, gone, λ e. e)) d.place (v.calls_in j d h));
  slots_in = at_each SlotOk i _ m.slots (λ e. ground arith) (λ j u other h. v.slots_in j u h);
  calls_below =
      at_each (λ j d. j < m.next) i _ m.calls (v.calls_below i c here)
        (λ j d other h. v.calls_below j d h);
  slots_below =
      at_each (λ j u. j < m.next) i _ m.slots (v.calls_below i c here)
        (λ j u other h. v.slots_below j u h);
  terminals_below = v.terminals_below;
}
