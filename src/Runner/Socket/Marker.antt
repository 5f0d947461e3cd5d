-- ===== src/Runner/Socket/Marker.antt =====
-- The lines that the shell prints behind a command (terminal_ws.go, terminal_protocol.go).
use git_gym.Prelude.{
  ℕ, ◌+◌, ◌-◌, ◌*◌, ◌%◌, ◌^◌, Bool, true, false, ◌&&◌, ◌||◌, Option, none, some, [], ◌∷◌, ◌==◌, ltb,
  leb, if◌then◌else◌,
}
use Prim.Native.Nat.{◌/◌}
use git_gym.Prelude.Text.{Text, codes, is_empty, ℤ, pos, negsuc}
use git_gym.Runner.Socket.Bytes.{trim_space, normalize_terminal_marker_line}

abbrev pub terminal_command_exit_marker : Text
terminal_command_exit_marker = codes "__GITGYM_COMMAND_EXIT__"

abbrev pub terminal_continuation_prompt_marker : Text
terminal_continuation_prompt_marker = codes "__GITGYM_CONTINUATION_PROMPT__"

pub record CommandCompletion : Type 0 where
  pub command : Text
  pub exit_code : ℤ

-- The rest of a text behind a prefix.
unfoldable pub strip_prefix : Text → Text → Option Text
strip_prefix [] s = some s
strip_prefix (c ∷ p) [] = none
strip_prefix (c ∷ p) (d ∷ s) = if c == d then strip_prefix p s else none

abbrev pub is_digit : ℕ → Bool
is_digit c = leb b'0' c && leb c b'9'

-- The longest run of bytes that pass a test, and the rest.
unfoldable pub span : (ℕ → Bool) → Text → Text × Text
span p [] = ([], [])
span p (c ∷ s) = if p c then (let (run, rest) = span p s in (c ∷ run, rest)) else ([], c ∷ s)

abbrev pub is_base64 : ℕ → Bool
is_base64 c =
    (leb b'A' c && leb c b'Z')
    || ((leb b'a' c && leb c b'z') || (is_digit c || (c == b'+' || (c == b'/' || c == b'='))))

unfoldable pub digits_value : ℕ → Text → ℕ
digits_value n [] = n
digits_value n (c ∷ s) = digits_value (10 * n + (c - b'0')) s

-- `strconv.Atoi` of an optional minus sign and digits: an error outside of 64 bits.
unfoldable pub atoi : Bool → Text → Option ℤ
unfolding digits_value
atoi false digits = let n = digits_value 0 digits in if ltb n (2 ^ 63) then some (pos n) else none
atoi true digits =
    let n = digits_value 0 digits in
    if n == 0 then some (pos 0) else if leb n (2 ^ 63) then some (negsuc (n - 1)) else none

-- The value of a character of the standard alphabet.
unfoldable pub sextet : ℕ → Option ℕ
sextet c =
    if leb b'A' c && leb c b'Z'
    then some (c - b'A')
    else (if leb b'a' c && leb c b'z'
        then some (c - b'a' + 26)
        else (if is_digit c
            then some (c - b'0' + 52)
            else (if c == b'+' then some 62 else (if c == b'/' then some 63 else none))))

abbrev byte_1 : ℕ → ℕ → ℕ
byte_1 a b = a * 4 + b / 16

abbrev byte_2 : ℕ → ℕ → ℕ
byte_2 b c = b % 16 * 16 + c / 4

abbrev byte_3 : ℕ → ℕ → ℕ
byte_3 c d = c % 4 * 64 + d

-- The last quantum with padding.
padded : Option ℕ → Option ℕ → ℕ → Option ℕ → Text → Option Text
padded (some a) (some b) c o [] =
    if c == b'='
    then some (byte_1 a b ∷ [])
    else elim o [ none ↦ none | some v ↦ some (byte_1 a b ∷ byte_2 b v ∷ []) ]
padded _ _ _ _ _ = none

quantum : Option ℕ → Option ℕ → Option ℕ → Option ℕ → Option Text → Option Text
quantum (some a) (some b) (some c) (some d) (some rest) =
    some (byte_1 a b ∷ byte_2 b c ∷ byte_3 c d ∷ rest)
quantum _ _ _ _ _ = none

-- `base64.StdEncoding.DecodeString`, where no line breaks occur.
unfoldable pub decode_base64 : Text → Option Text
unfolding padded quantum sextet
decode_base64 [] = some []
decode_base64 (a ∷ b ∷ c ∷ d ∷ rest) = elim (d == b'=') [
  | true ↦ padded (sextet a) (sextet b) c (sextet c) rest
  | false ↦ quantum (sextet a) (sextet b) (sextet c) (sextet d) (decode_base64 rest)
]
decode_base64 _ = none

-- `\r?$`.
abbrev pub at_end : Text → Bool
at_end [] = true
at_end (c ∷ []) = c == 13
at_end (c ∷ d ∷ s) = false

completion_of : Option ℤ → Option Text → Option CommandCompletion
completion_of (some code) (some bytes) =
    if is_empty (trim_space bytes)
    then none
    else some (record { command = trim_space bytes; exit_code = code })
completion_of _ _ = none

-- Behind the digits: `:([A-Za-z0-9+/=]+)\r?$`.
match_command : Bool → Text → Text → Option CommandCompletion
unfolding completion_of atoi decode_base64 span
match_command minus digits [] = none
match_command minus digits (c ∷ s) =
    let (encoded, rest) = span is_base64 s in
    if c == b':' && (if is_empty digits || is_empty encoded then false else at_end rest)
    then completion_of (atoi minus digits) (decode_base64 encoded)
    else none

match_code : Bool → Text → Option CommandCompletion
unfolding match_command span
match_code minus s = let (digits, rest) = span is_digit s in match_command minus digits rest

-- `-?`.
match_sign : Text → Option CommandCompletion
unfolding match_code
match_sign [] = none
match_sign (c ∷ s) = if c == b'-' then match_code true s else match_code false (c ∷ s)

-- `terminalCommandMetadataLine` and what is made of its groups.
match_metadata : Option Text → Option CommandCompletion
unfolding match_sign
match_metadata none = none
match_metadata (some []) = none
match_metadata (some (c ∷ s)) = if c == b':' then match_sign s else none

unfoldable pub parse_terminal_command_metadata_line : Text → Option CommandCompletion
unfolding match_metadata strip_prefix normalize_terminal_marker_line
parse_terminal_command_metadata_line line =
    match_metadata (strip_prefix terminal_command_exit_marker (normalize_terminal_marker_line line))

unfoldable pub is_terminal_continuation_prompt_line : Text → Bool
unfolding strip_prefix normalize_terminal_marker_line
is_terminal_continuation_prompt_line line =
    elim (strip_prefix terminal_continuation_prompt_marker (normalize_terminal_marker_line line)) [
      | none ↦ false
      | some rest ↦ at_end rest
    ]

-- `value != "" && strings.HasPrefix(TerminalCommandExitMarker, value)`.
unfoldable pub could_be_exit_marker_fragment : Text → Bool
unfolding strip_prefix
could_be_exit_marker_fragment [] = false
could_be_exit_marker_fragment (c ∷ s) = elim (strip_prefix (c ∷ s) terminal_command_exit_marker) [
  | none ↦ false
  | some rest ↦ true
]
