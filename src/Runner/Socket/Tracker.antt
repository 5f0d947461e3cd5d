-- ===== src/Runner/Socket/Tracker.antt =====
-- commandCompletionTracker of terminal_ws.go.
pub mod Split
pub mod Lines
use git_gym.Prelude.{
  ℕ, Bool, true, false, ◌||◌, not, Option, none, some, List, [], ◌∷◌, ◌++◌, ◌==◌, if◌then◌else◌,
}
use git_gym.Prelude.Text.{Text}
use git_gym.Runner.Socket.Marker.{
  CommandCompletion, parse_terminal_command_metadata_line, is_terminal_continuation_prompt_line,
  could_be_exit_marker_fragment,
}

-- The complete lines of a text, each with its line feed, and what is left behind the last one.
unfoldable pub split_lines : Text → Text → List Text × Text
split_lines line [] = ([], line)
split_lines line (c ∷ s) = elim (c == 10) [
  | true ↦ (let (lines, rest) = split_lines [] s in ((line ++ c ∷ []) ∷ lines, rest))
  | false ↦ split_lines (line ++ c ∷ []) s
]

-- A line that is neither a report nor a continuation prompt goes to the output.
unfoldable pub read_line : Text → Text × List CommandCompletion → Text × List CommandCompletion
read_line line (output, completions) = elim (parse_terminal_command_metadata_line line) [
  | some completion ↦ (output, completion ∷ completions)
  | none ↦
      if is_terminal_continuation_prompt_line line
      then (output, completions)
      else (line ++ output, completions)
]

-- What the loop adds for its lines.
unfoldable pub read_lines : List Text → Text × List CommandCompletion
unfolding read_line
read_lines [] = ([], [])
read_lines (line ∷ lines) = read_line line (read_lines lines)

pub record Drained : Type 0 where
  pub output : Text
  pub completions : List CommandCompletion
  pub pending : Text

unfoldable pub drain : Bool → Text → Drained
unfolding split_lines read_lines
drain flush_all pending_output =
    let (lines, rest) = split_lines [] pending_output in
    let (output, completions) = read_lines lines in
    if flush_all || not (could_be_exit_marker_fragment rest)
    then record { output = output ++ rest; completions = completions; pending = [] }
    else record { output = output; completions = completions; pending = rest }

unfoldable pub ingest_output : Text → Text → Drained
unfolding drain
ingest_output pending_output chunk = drain false (pending_output ++ chunk)

unfoldable pub flush : Text → Drained
unfolding drain
flush pending_output = drain true pending_output
