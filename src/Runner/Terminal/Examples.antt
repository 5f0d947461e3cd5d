-- ===== src/Runner/Terminal/Examples.antt =====
-- The theorems on terminals and their sockets at concrete inputs.
use git_gym.Prelude.{ℕ, ◌≡◌, refl, true, false, some, List, [], ◌∷◌}
use git_gym.Prelude.Text.{codes, text_eq}
use git_gym.Runner.Terminal.Manager.{
  Terminal, Event, call_acquire, turn, shell_starts, goes_on, run, new_terminal_manager,
}
use git_gym.Runner.Terminal.Manager.Exclusive.{one_open_terminal}

-- Two calls of Acquire for one workspace, the second while the first starts its shell.
abbrev two_acquires : List Event
two_acquires =
    call_acquire (codes "ws-1")
    ∷ turn 0
    ∷ call_acquire (codes "ws-1")
    ∷ turn 1
    ∷ shell_starts 0 true
    ∷ goes_on 0
    ∷ []

abbrev shell : Terminal
shell = record { workspace_id = codes "ws-1"; closed = false }

one_open_terminal_example :
    (◌≡◌ {A = ℕ} 0 0) × ((run two_acquires new_terminal_manager).sessions (codes "ws-1") ≡ some 0)
unfolding run new_terminal_manager text_eq
one_open_terminal_example = one_open_terminal two_acquires 0 0 shell shell refl refl refl refl refl
