-- ===== src/Runner/Terminal/Manager/Invariant.antt =====
-- What holds between two steps of TerminalManager (services/runner/internal/engine/terminal_sessions.go).
use git_gym.Prelude.{
  ℕ, ◌≡◌, ◌≢◌, ◌<◌, ap, inl, inr, true, false, Option, none, some, ◌==◌, ==_iff, Bool-cases, arith,
}
use mathlib.Core.Path.{subst}
use git_gym.Prelude.Text.{Text, text_eq, text_eq→eq}
use git_gym.Runner.Terminal.Manager.{
  Slot, active, releasing, Terminal, Place, acquiring, waits_ready, waits_released, starts_shell,
  shell_started, closing, closed, Call, Manager, at, move, fresh_slot, is_open,
}

-- What holds of each entry of a map holds after an entry is written.
pub at_each :
    {V : Type 0} (P : ℕ → V → Type 0) (i : ℕ) (v : V) (m : ℕ → Option V)
    → P i v
    → ((j : ℕ) (u : V) → i ≢ j → m j ≡ some u → P j u)
    → (j : ℕ) (u : V) → at i (some v) m j ≡ some u
    → P j u
at_each P i v m mine others j u h = elim (Bool-cases (i == j)) [
  | inl hit ↦
      let same_number = (==_iff i j).0 hit in
      let same : v ≡ u = ground arith in subst (λ x. P x u) same_number (subst (P i) same mine)
  | inr miss ↦ others j u (λ e. ground arith) (ground arith)
]

module _ (sessions : Text → Option ℕ) (slots : ℕ → Option Slot)
    (terminals : ℕ → Option Terminal) where
  -- What is known of call `i` of workspace `w` at its place: before it has a slot there is none of
  -- its number; while it starts the shell its slot is the one of the workspace; and the slot that a
  -- Release works on is being released.
  abbrev pub CallOk : ℕ → Text → Place → Type 0
  CallOk i w acquiring = (slots i ≡ none) × (terminals i ≡ none)
  CallOk i w (waits_ready j) = (slots i ≡ none) × (terminals i ≡ none)
  CallOk i w (waits_released j) = (slots i ≡ none) × (terminals i ≡ none)
  CallOk i w starts_shell =
      (sessions w ≡ some i) × (slots i ≡ some fresh_slot) × (terminals i ≡ none)
  CallOk i w (shell_started true) = (sessions w ≡ some i) × (slots i ≡ some fresh_slot)
  CallOk i w (shell_started false) =
      (sessions w ≡ some i) × (slots i ≡ some fresh_slot) × (terminals i ≡ none)
  CallOk i w (closing j session) =
      (s : Slot) × (slots j ≡ some s) × (s.state ≡ releasing) × (session ≡ some j)
  CallOk i w (closed j) =
      (s : Slot) × (slots j ≡ some s) × (s.state ≡ releasing) × (is_open (terminals j) ≡ false)
  CallOk i w _ = Unit

  -- An open terminal is the one that the map has for its workspace.
  abbrev pub OpenIn : ℕ → Terminal → Type 0
  OpenIn k t = t.closed ≡ false → sessions t.workspace_id ≡ some k

abbrev pub SlotOk : ℕ → Slot → Type 0
SlotOk j s = s.state ≡ active → s.session ≡ some j

pub record ManagerInv (m : Manager) : Type 0 where
  pub open_in :
      (k : ℕ) (t : Terminal) → m.terminals k ≡ some t → OpenIn m.sessions m.slots m.terminals k t
  pub calls_in :
      (i : ℕ) (c : Call)
      → m.calls i ≡ some c
      → CallOk m.sessions m.slots m.terminals i c.workspace_id c.place
  pub slots_in : (j : ℕ) (s : Slot) → m.slots j ≡ some s → SlotOk j s
  pub calls_below : (i : ℕ) (c : Call) → m.calls i ≡ some c → i < m.next
  pub slots_below : (j : ℕ) (s : Slot) → m.slots j ≡ some s → j < m.next
  pub terminals_below : (k : ℕ) (t : Terminal) → m.terminals k ≡ some t → k < m.next

-- A call moves to a place where what is known there holds.
pub move-ManagerInv :
    (i : ℕ) (c : Call) (place : Place) (m : Manager)
    → m.calls i ≡ some c
    → CallOk m.sessions m.slots m.terminals i c.workspace_id place
    → ManagerInv m
    → ManagerInv (move i c place m)
move-ManagerInv i c place m here known v = record {
  open_in = v.open_in;
  calls_in =
      at_each (λ j d. CallOk m.sessions m.slots m.terminals j d.workspace_id d.place) i _ m.calls
        known (λ j d other h. v.calls_in j d h);
  slots_in = v.slots_in;
  calls_below =
      at_each (λ j d. j < m.next) i _ m.calls (v.calls_below i c here)
        (λ j d other h. v.calls_below j d h);
  slots_below = v.slots_below;
  terminals_below = v.terminals_below;
}

pub same_text : (w u : Text) (m : Text → Option ℕ) → text_eq w u ≡ true → m w ≡ m u
same_text w u m h = ap m (text_eq→eq w u h)

-- What must stay so that what is known of a call stays known.
module _ (m m' : Manager) (j : ℕ) (w : Text) (unslotted : m.slots j ≡ none → m'.slots j ≡ none)
    (unborn : m.terminals j ≡ none → m'.terminals j ≡ none)
    (own : m.sessions w ≡ some j
      → m.slots j ≡ some fresh_slot
      → (m'.sessions w ≡ some j) × (m'.slots j ≡ some fresh_slot))
    (leaving : (k : ℕ) (s : Slot)
      → m.slots k ≡ some s
      → s.state ≡ releasing
      → (s' : Slot) × (m'.slots k ≡ some s')
        × (s'.state ≡ releasing)
        × (is_open (m.terminals k) ≡ false → is_open (m'.terminals k) ≡ false)) where
  pub keeps-CallOk :
      (p : Place)
      → CallOk m.sessions m.slots m.terminals j w p
      → CallOk m'.sessions m'.slots m'.terminals j w p
  keeps-CallOk acquiring h = (unslotted h.0, unborn h.1)
  keeps-CallOk (waits_ready k) h = (unslotted h.0, unborn h.1)
  keeps-CallOk (waits_released k) h = (unslotted h.0, unborn h.1)
  keeps-CallOk starts_shell h = ((own h.0 h.1).0, (own h.0 h.1).1, unborn h.2)
  keeps-CallOk (shell_started true) h = own h.0 h.1
  keeps-CallOk (shell_started false) h = ((own h.0 h.1).0, (own h.0 h.1).1, unborn h.2)
  keeps-CallOk (closing k session) (s, at_k, gone, same) =
      let (s', at_k', gone', ended) = leaving k s at_k gone in (s', at_k', gone', same)
  keeps-CallOk (closed k) (s, at_k, gone, over) =
      let (s', at_k', gone', ended) = leaving k s at_k gone in (s', at_k', gone', ended over)
  keeps-CallOk _ h = tt
