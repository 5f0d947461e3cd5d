-- ===== src/Runner/Terminal/Chunks.antt =====
-- splitTerminalInputChunks of services/runner/internal/engine/terminal_sessions.go, over bytes.
pub mod Lines
use git_gym.Prelude.{ℕ, Bool, true, false, List, [], ◌∷◌, ◌++◌, ◌==◌, if◌then◌else◌}
use git_gym.Prelude.Text.{Text}

abbrev pub carriage_return : ℕ
carriage_return = 13

abbrev pub line_feed : ℕ
line_feed = 10

-- What is left at the end of the input, `data[start:]`.
unfoldable pub last_chunk : Text → List Text
last_chunk [] = []
last_chunk (c ∷ pending) = (c ∷ pending) ∷ []

-- A byte that no line feed follows.
abbrev pub ends_line : ℕ → Bool
ends_line c = if c == carriage_return then true else c == line_feed

abbrev pub is_crlf : ℕ → ℕ → Bool
is_crlf c d = if c == carriage_return then d == line_feed else false

-- The loop, with `pending` for `data[start:index]`.
unfoldable pub split_from : Text → Text → List Text
unfolding last_chunk
split_from pending [] = last_chunk pending
split_from pending (c ∷ []) =
    if ends_line c then (pending ++ c ∷ []) ∷ [] else last_chunk (pending ++ c ∷ [])
split_from pending (c ∷ d ∷ rest) = elim (is_crlf c d) [
  | true ↦ (pending ++ c ∷ d ∷ []) ∷ split_from [] rest
  | false ↦ elim (ends_line c) [
    | true ↦ (pending ++ c ∷ []) ∷ split_from [] (d ∷ rest)
    | false ↦ split_from (pending ++ c ∷ []) (d ∷ rest)
  ]
]

unfoldable pub split_terminal_input_chunks : Text → List Text
unfolding split_from
split_terminal_input_chunks input = split_from [] input
