-- ===== src/Runner/Terminal/Manager.antt =====
-- TerminalManager of services/runner/internal/engine/terminal_sessions.go: Acquire and Release as steps
-- of concurrent calls, one step for each section under the mutex and for each wait. A call that starts
-- a slot or a shell starts one at most, so a slot and a terminal have the number of the call that made
-- them. The map is not nil, and the states of a slot are the three constants.
pub mod Invariant
pub mod Acquire
pub mod Release
pub mod Turns
pub mod Exclusive
use git_gym.Prelude.{
  ℕ, suc, Bool, true, false, Option, none, some, List, [], ◌∷◌, ◌==◌, if◌then◌else◌,
}
use git_gym.Prelude.Text.{Text, text_eq}

pub data SlotState : Type 0 where
  starting active releasing : SlotState

-- The two channels are read as "is closed".
pub record Slot : Type 0 where
  pub session : Option ℕ
  pub state : SlotState
  pub ready : Bool
  pub released : Bool

pub record Terminal : Type 0 where
  pub workspace_id : Text
  pub closed : Bool

-- Where a call of Acquire or of Release stands.
pub data Place : Type 0 where
  acquiring : Place
  waits_ready waits_released : ℕ → Place
  starts_shell : Place
  shell_started : Bool → Place
  acquired : ℕ → Place
  acquire_failed : Place
  releases : Place
  release_waits_ready release_waits_released : ℕ → Place
  closing : ℕ → Option ℕ → Place
  closed : ℕ → Place
  release_done : Place

pub record Call : Type 0 where
  pub workspace_id : Text
  pub place : Place

pub record Manager : Type 0 where
  pub sessions : Text → Option ℕ
  pub slots : ℕ → Option Slot
  pub terminals : ℕ → Option Terminal
  pub calls : ℕ → Option Call
  pub next : ℕ

unfoldable pub new_terminal_manager : Manager
new_terminal_manager = record {
  sessions = λ id. none;
  slots = λ j. none;
  terminals = λ k. none;
  calls = λ i. none;
  next = 0;
}

abbrev pub at_text : {V : Type 0} → Text → Option V → (Text → Option V) → Text → Option V
at_text id v m id' = if text_eq id id' then v else m id'

abbrev pub at : {V : Type 0} → ℕ → Option V → (ℕ → Option V) → ℕ → Option V
at i v m j = if i == j then v else m j

abbrev pub move : ℕ → Call → Place → Manager → Manager
move i c place m = record m {
  calls = at i (some (record { workspace_id = c.workspace_id; place = place })) m.calls;
}

-- A nil pointer is not followed here: every number in the map or at a place has its slot.
abbrev pub with_slot : Option Slot → Manager → (Slot → Manager) → Manager
with_slot none m f = m
with_slot (some s) m f = f s

-- `session != nil && !session.isClosed()`.
abbrev pub is_open : Option Terminal → Bool
is_open none = false
is_open (some t) = if t.closed then false else true

abbrev pub open_session : Manager → Option ℕ → Option ℕ
open_session m none = none
open_session m (some k) = if is_open (m.terminals k) then some k else none

abbrev pub fresh_slot : Slot
fresh_slot = record { session = none; state = starting; ready = false; released = false }

unfoldable pub start_slot : ℕ → Call → Manager → Manager
start_slot i c m = record m {
  sessions = at_text c.workspace_id (some i) m.sessions;
  slots = at i (some fresh_slot) m.slots;
  calls = at i (some (record { workspace_id = c.workspace_id; place = starts_shell })) m.calls;
}

-- The switch of Acquire on the slot that it finds.
acquire_at : ℕ → Call → ℕ → Slot → SlotState → Manager → Manager
unfolding start_slot
acquire_at i c j s active m = elim (open_session m s.session) [
  | some k ↦ move i c (acquired k) m
  | none ↦ start_slot i c m
]
acquire_at i c j s starting m = move i c (waits_ready j) m
acquire_at i c j s releasing m = move i c (waits_released j) m

unfoldable pub acquire_turn : ℕ → Call → Option ℕ → Manager → Manager
unfolding acquire_at start_slot
acquire_turn i c none m = start_slot i c m
acquire_turn i c (some j) m = with_slot (m.slots j) m λ s. acquire_at i c j s s.state m

-- The second section of Acquire, with what startTerminalSession returned.
unfoldable pub publish_session : ℕ → Call → Slot → Manager → Manager
publish_session i c s m = move i c (acquired i) (record m {
  slots = at i (some (record s { session = some i; state = active; ready = true })) m.slots;
})

unfoldable pub drop_slot : ℕ → Call → Slot → Manager → Manager
drop_slot i c s m = move i c acquire_failed (record m {
  sessions = at_text c.workspace_id none m.sessions;
  slots = at i (some (record s { ready = true })) m.slots;
})

unfoldable pub publish : ℕ → Call → Bool → Bool → Manager → Manager
unfolding publish_session drop_slot
publish i c true true m = with_slot (m.slots i) m λ s. publish_session i c s m
publish i c true false m = with_slot (m.slots i) m λ s. drop_slot i c s m
publish i c false true m = move i c (acquired i) m
publish i c false false m = move i c acquire_failed m

abbrev pub is_slot : Option ℕ → ℕ → Bool
is_slot none j = false
is_slot (some k) j = k == j

unfoldable pub begin_release : ℕ → Call → ℕ → Slot → Manager → Manager
begin_release i c j s m =
    move i c (closing j s.session)
      (record m { slots = at j (some (record s { state = releasing; released = false })) m.slots })

-- The switch of Release.
release_at : ℕ → Call → ℕ → Slot → SlotState → Manager → Manager
unfolding begin_release
release_at i c j s starting m = move i c (release_waits_ready j) m
release_at i c j s releasing m = move i c (release_waits_released j) m
release_at i c j s active m = begin_release i c j s m

unfoldable pub release_turn : ℕ → Call → Option ℕ → Manager → Manager
unfolding release_at
release_turn i c none m = move i c release_done m
release_turn i c (some j) m = with_slot (m.slots j) m λ s. release_at i c j s s.state m

abbrev pub close_terminal : Option Terminal → Option Terminal
close_terminal none = none
close_terminal (some t) = some (record t { closed = true })

unfoldable pub end_terminal : ℕ → Manager → Manager
end_terminal k m = record m { terminals = at k (close_terminal (m.terminals k)) m.terminals }

-- `session.close()` where the session is not nil.
unfoldable pub close_session : ℕ → Call → ℕ → Option ℕ → Manager → Manager
unfolding end_terminal
close_session i c j none m = move i c (closed j) m
close_session i c j (some k) m = move i c (closed j) (end_terminal k m)

-- The second section of Release.
unfoldable pub without_slot : ℕ → Call → ℕ → Slot → Manager → Manager
without_slot i c j s m = move i c release_done (record m {
  sessions =
      if is_slot (m.sessions c.workspace_id) j
      then at_text c.workspace_id none m.sessions
      else m.sessions;
  slots = at j (some (record s { released = true })) m.slots;
})

unfoldable pub remove_slot : ℕ → Call → ℕ → Manager → Manager
unfolding without_slot
remove_slot i c j m = with_slot (m.slots j) m λ s. without_slot i c j s m

pub data Event : Type 0 where
  call_acquire : Text → Event
  call_release : Text → Event
  turn : ℕ → Event
  context_done : ℕ → Event
  wakes : ℕ → Event
  shell_starts : ℕ → Bool → Event
  goes_on : ℕ → Event
  shell_exits : ℕ → Event

abbrev pub add_call : Text → Place → Manager → Manager
add_call id place m = record m {
  calls = at m.next (some (record { workspace_id = id; place = place })) m.calls;
  next = suc m.next;
}

-- A call takes the mutex at the head of its loop.
pub on_turn : ℕ → Call → Place → Manager → Manager
unfolding acquire_turn release_turn
on_turn i c acquiring m = acquire_turn i c (m.sessions c.workspace_id) m
on_turn i c releases m = release_turn i c (m.sessions c.workspace_id) m
on_turn i c _ m = m

-- The context of an Acquire is done at the head of the loop, in a wait, or when the shell is started.
pub on_context_done : ℕ → Call → Place → Manager → Manager
on_context_done i c acquiring m = move i c acquire_failed m
on_context_done i c (waits_ready j) m = move i c acquire_failed m
on_context_done i c (waits_released j) m = move i c acquire_failed m
on_context_done i c _ m = m

abbrev pub is_ready : Option Slot → Bool
is_ready none = false
is_ready (some s) = s.ready

abbrev pub is_released : Option Slot → Bool
is_released none = false
is_released (some s) = s.released

-- A wait ends when the channel is closed.
pub on_wake : ℕ → Call → Place → Manager → Manager
on_wake i c (waits_ready j) m = if is_ready (m.slots j) then move i c acquiring m else m
on_wake i c (waits_released j) m = if is_released (m.slots j) then move i c acquiring m else m
on_wake i c (release_waits_ready j) m = if is_ready (m.slots j) then move i c releases m else m
on_wake i c (release_waits_released j) m =
    if is_released (m.slots j) then move i c release_done m else m
on_wake i c _ m = m

unfoldable pub with_shell : ℕ → Call → Manager → Manager
with_shell i c m = move i c (shell_started true) (record m {
  terminals = at i (some (record { workspace_id = c.workspace_id; closed = false })) m.terminals;
})

-- startTerminalSession returns, with a session or with an error.
pub on_shell : ℕ → Call → Bool → Place → Manager → Manager
unfolding with_shell
on_shell i c true starts_shell m = with_shell i c m
on_shell i c false starts_shell m = move i c (shell_started false) m
on_shell i c _ _ m = m

-- The rest of a call behind the work that it does without the mutex.
pub on_go : ℕ → Call → Place → Manager → Manager
unfolding publish close_session remove_slot
on_go i c (shell_started ok) m = publish i c (is_slot (m.sessions c.workspace_id) i) ok m
on_go i c (closing j session) m = close_session i c j session m
on_go i c (closed j) m = remove_slot i c j m
on_go i c _ m = m

abbrev pub with_call : Option Call → Manager → (Call → Manager) → Manager
with_call none m f = m
with_call (some c) m f = f c

-- An event of a call that does not stand where it could happen changes nothing.
unfoldable pub step : Event → Manager → Manager
unfolding on_turn on_context_done on_wake on_shell on_go end_terminal
step (call_acquire id) m = add_call id acquiring m
step (call_release id) m = add_call id releases m
step (turn i) m = with_call (m.calls i) m λ c. on_turn i c c.place m
step (context_done i) m = with_call (m.calls i) m λ c. on_context_done i c c.place m
step (wakes i) m = with_call (m.calls i) m λ c. on_wake i c c.place m
step (shell_starts i ok) m = with_call (m.calls i) m λ c. on_shell i c ok c.place m
step (goes_on i) m = with_call (m.calls i) m λ c. on_go i c c.place m
step (shell_exits k) m = end_terminal k m

unfoldable pub run : List Event → Manager → Manager
unfolding step
run [] m = m
run (e ∷ es) m = run es (step e m)
