-- ===== src/Runner/Socket/Exit.antt =====
-- The exit commands that a client types, and the exit code of the shell (terminal_ws.go).
use git_gym.Prelude.{
  ℕ, ◌+◌, Bool, true, false, ◌&&◌, ◌||◌, Option, none, some, List, [], ◌∷◌, ◌++◌, ◌==◌, leb,
  if◌then◌else◌,
}
use git_gym.Prelude.Text.{Text, codes, text_eq, is_empty, ℤ, pos}
use git_gym.Runner.Socket.Bytes.{trim_space}
use git_gym.Runner.Socket.Marker.{CommandCompletion, strip_prefix, span, is_digit}

-- `\r\n` and `\r` become `\n`, and the text is split at each.
unfoldable pub input_lines : Text → Text → List Text
input_lines line [] = line ∷ []
input_lines line (c ∷ []) = if c == 10 || c == 13 then line ∷ [] ∷ [] else (line ++ c ∷ []) ∷ []
input_lines line (c ∷ d ∷ s) = elim (c == 13 && d == 10) [
  | true ↦ line ∷ input_lines [] s
  | false ↦ elim (c == 10 || c == 13) [
    | true ↦ line ∷ input_lines [] (d ∷ s)
    | false ↦ input_lines (line ++ c ∷ []) (d ∷ s)
  ]
]

-- The trimmed lines that are not empty.
unfoldable pub trimmed_lines : List Text → List Text
trimmed_lines [] = []
trimmed_lines (line ∷ lines) =
    if is_empty (trim_space line)
    then trimmed_lines lines
    else trim_space line ∷ trimmed_lines lines

lower : ℕ → ℕ
lower c = if leb b'A' c && leb c b'Z' then c + 32 else c

lower_all : Text → Text
unfolding lower
lower_all [] = []
lower_all (c ∷ s) = lower c ∷ lower_all s

-- `\s`.
abbrev is_regexp_space : ℕ → Bool
is_regexp_space c = c == 9 || (c == 10 || (c == 12 || (c == 13 || c == 32)))

-- `(?:\s+\d+)?$` behind `exit`.
exit_argument : Text → Bool
unfolding span
exit_argument [] = true
exit_argument (c ∷ s) =
    let (spaces, rest) = span is_regexp_space (c ∷ s) in
    let (digits, left) = span is_digit rest in
    if is_empty spaces || is_empty digits then false else is_empty left

-- `shellExitCommandPattern`.
unfoldable pub is_shell_exit_command : Text → Bool
unfolding lower_all exit_argument strip_prefix
is_shell_exit_command command = elim (strip_prefix (codes "exit") (lower_all command)) [
  | some rest ↦ exit_argument rest
  | none ↦ text_eq (lower_all command) (codes "logout")
]

only_exit : List Text → Option Text
unfolding is_shell_exit_command
only_exit (command ∷ []) = if is_shell_exit_command command then some command else none
only_exit _ = none

unfoldable pub parse_shell_exit_input : Text → Option Text
unfolding input_lines trimmed_lines only_exit
parse_shell_exit_input input = only_exit (trimmed_lines (input_lines [] input))

unfoldable pub has_command_completion : List CommandCompletion → Text → Bool
has_command_completion [] command = false
has_command_completion (completion ∷ rest) command =
    if text_eq completion.command command then true else has_command_completion rest command

-- shellExitSubmissionTracker: what `consume` returns, and the pending command that it leaves.
unfoldable pub consume : Text → Option Text × Text
consume [] = (none, [])
consume (c ∷ pending) = (some (c ∷ pending), [])

-- What `session.Wait()` returned: an exit status, or an error of another kind.
pub data WaitOutcome : Type 0 where
  waited : WaitOutcome
  exit_status : ℤ → WaitOutcome
  wait_failed : Text → WaitOutcome

unfoldable pub terminal_exit_code : WaitOutcome → Option ℤ
terminal_exit_code waited = some (pos 0)
terminal_exit_code (exit_status code) = some code
terminal_exit_code (wait_failed message) = none

-- The handling of an `input` message ahead of WriteInput.
unfoldable pub note_input : Text → Text
unfolding parse_shell_exit_input
note_input input = elim (parse_shell_exit_input input) [ some command ↦ command | none ↦ [] ]

completed_by : Option ℤ → Option Text × Text → List CommandCompletion → List CommandCompletion
unfolding has_command_completion
completed_by (some code) (some command, pending) completions =
    if has_command_completion completions command
    then completions
    else completions ++ record { command = command; exit_code = code } ∷ []
completed_by _ _ completions = completions

-- The completions that the end of the stream reports.
unfoldable pub final_completions :
    WaitOutcome → Text → List CommandCompletion → List CommandCompletion
unfolding terminal_exit_code consume completed_by
final_completions outcome pending completions =
    completed_by (terminal_exit_code outcome) (consume pending) completions
