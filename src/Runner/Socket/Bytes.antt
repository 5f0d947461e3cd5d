-- ===== src/Runner/Socket/Bytes.antt =====
-- What terminal_ws.go uses of Go's `strings`, over bytes in UTF-8, and its pattern for ANSI sequences.
use git_gym.Prelude.{ℕ, Bool, true, false, ◌&&◌, ◌||◌, [], ◌∷◌, ◌++◌, ◌==◌, leb, if◌then◌else◌}
use git_gym.Prelude.Text.{Text}
use mathlib.Core.List.{reverse}

-- The white space of Unicode in one, two and three bytes.
abbrev pub is_ascii_space : ℕ → Bool
is_ascii_space c = (leb 9 c && leb c 13) || c == 32

abbrev is_space_2 : ℕ → ℕ → Bool
is_space_2 c d = c == 0xc2 && (d == 0x85 || d == 0xa0)

abbrev is_space_3 : ℕ → ℕ → ℕ → Bool
is_space_3 c d e =
    (c == 0xe1 && (d == 0x9a && e == 0x80))
    || ((c == 0xe2
          && (d == 0x80 && ((leb 0x80 e && leb e 0x8a) || (e == 0xa8 || (e == 0xa9 || e == 0xaf)))))
        || ((c == 0xe2 && (d == 0x81 && e == 0x9f)) || (c == 0xe3 && (d == 0x80 && e == 0x80))))

-- Drops white space at the front, whose bytes are in the order that the two tests take them.
trim_front : (ℕ → ℕ → Bool) → (ℕ → ℕ → ℕ → Bool) → Text → Text
trim_front two three [] = []
trim_front two three (c ∷ []) = if is_ascii_space c then [] else c ∷ []
trim_front two three (c ∷ d ∷ []) = elim (is_ascii_space c) [
  | true ↦ trim_front two three (d ∷ [])
  | false ↦ if two c d then [] else c ∷ d ∷ []
]
trim_front two three (c ∷ d ∷ e ∷ rest) = elim (is_ascii_space c) [
  | true ↦ trim_front two three (d ∷ e ∷ rest)
  | false ↦ elim (two c d) [
    | true ↦ trim_front two three (e ∷ rest)
    | false ↦ elim (three c d e) [ true ↦ trim_front two three rest | false ↦ c ∷ d ∷ e ∷ rest ]
  ]
]

-- `strings.TrimSpace`.
unfoldable pub trim_space : Text → Text
unfolding trim_front
trim_space s = reverse (
    trim_front (λ c d. is_space_2 d c) (λ c d e. is_space_3 e d c)
      (reverse (trim_front is_space_2 is_space_3 s)))

-- `strings.TrimSuffix(s, "\n")` and the like, for one byte.
unfoldable pub trim_suffix : ℕ → Text → Text
trim_suffix c [] = []
trim_suffix c (d ∷ []) = if d == c then [] else d ∷ []
trim_suffix c (d ∷ e ∷ rest) = d ∷ trim_suffix c (e ∷ rest)

abbrev pub escape_byte : ℕ
escape_byte = 0x1b

-- How much of `\x1b\[[0-9;?]*[ -/]*[@-~]` has been read.
pub data Sequence : Type 0 where
  outside after_escape parameters intermediates : Sequence

abbrev is_parameter : ℕ → Bool
is_parameter c = (leb b'0' c && leb c b'9') || (c == b';' || c == b'?')

-- The bytes of `held` may be the start of a sequence; a byte that does not go on with it gives them
-- back, and is read as if nothing had been held.
strip : Sequence → Text → Text → Text
strip state held [] = held
strip outside held (c ∷ rest) = elim (c == escape_byte) [
  | true ↦ strip after_escape (c ∷ []) rest
  | false ↦ c ∷ strip outside [] rest
]
strip after_escape held (c ∷ rest) = elim (c == b'[') [
  | true ↦ strip parameters (held ++ c ∷ []) rest
  | false ↦ elim (c == escape_byte) [
    | true ↦ held ++ strip after_escape (c ∷ []) rest
    | false ↦ held ++ c ∷ strip outside [] rest
  ]
]
strip parameters held (c ∷ rest) = elim (is_parameter c) [
  | true ↦ strip parameters (held ++ c ∷ []) rest
  | false ↦ elim (leb b' ' c && leb c b'/') [
    | true ↦ strip intermediates (held ++ c ∷ []) rest
    | false ↦ elim (leb b'@' c && leb c b'~') [
      | true ↦ strip outside [] rest
      | false ↦ elim (c == escape_byte) [
        | true ↦ held ++ strip after_escape (c ∷ []) rest
        | false ↦ held ++ c ∷ strip outside [] rest
      ]
    ]
  ]
]
strip intermediates held (c ∷ rest) = elim (leb b' ' c && leb c b'/') [
  | true ↦ strip intermediates (held ++ c ∷ []) rest
  | false ↦ elim (leb b'@' c && leb c b'~') [
    | true ↦ strip outside [] rest
    | false ↦ elim (c == escape_byte) [
      | true ↦ held ++ strip after_escape (c ∷ []) rest
      | false ↦ held ++ c ∷ strip outside [] rest
    ]
  ]
]

-- `terminalANSISequence.ReplaceAllString(s, "")`.
unfoldable pub strip_ansi : Text → Text
unfolding strip
strip_ansi s = strip outside [] s

unfoldable pub normalize_terminal_marker_line : Text → Text
unfolding strip_ansi trim_suffix
normalize_terminal_marker_line line = strip_ansi (trim_suffix 13 (trim_suffix 10 line))
