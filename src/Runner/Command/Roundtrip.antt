-- ===== src/Runner/Command/Roundtrip.antt =====
-- parseCommand of services/runner/internal/engine/commands.go reads back a command line that was
-- written word by word.
use git_gym.Prelude.{
  ℕ, ◌≡◌, ◌≢◌, refl, sym, ap, ◌∙◌, inl, inr, Bool, true, false, not, ◌||◌, List, [], ◌∷◌, ◌++◌, map,
  arith, ◌==◌, Bool-cases, ==_iff, if◌then◌else◌, All,
}
use git_gym.Prelude.Text.{Text}
use git_gym.Prelude.Result.{ok}
use mathlib.Core.List.{append_assoc, append-nil}
use git_gym.Runner.Command.Parse.{
  Lexer, start, push, is_space, backslash, double_quote, single_quote, escapes, step, scan, is_nil,
  finish, parse_command,
}

-- A word as a client writes it: bare, or in double quotes with each backslash doubled.
pub data Word : Type 0 where
  bare : ℕ → Text → Word
  quoted : Text → Word

abbrev pub text_of : Word → Text
text_of (bare r text) = r ∷ text
text_of (quoted text) = text

abbrev pub escape : Text → Text
escape [] = []
escape (r ∷ rest) = if r == backslash then backslash ∷ backslash ∷ escape rest else r ∷ escape rest

abbrev pub write : Word → Text
write (bare r text) = r ∷ text
write (quoted text) = double_quote ∷ (escape text ++ double_quote ∷ [])

-- A space before each word but the first.
abbrev pub write_rest : List Word → Text
write_rest [] = []
write_rest (w ∷ ws) = b' ' ∷ (write w ++ write_rest ws)

abbrev pub write_line : Word → List Word → Text
write_line w ws = write w ++ write_rest ws

abbrev pub is_plain : ℕ → Bool
is_plain r = not (is_space r || (r == double_quote || r == single_quote))

-- No rune of a bare word is a space or a quote, and no rune of a quoted one is a double quote.
abbrev pub IsWritable : Word → Type 0
IsWritable (bare r text) = (is_plain r ≡ true) × All (λ c. is_plain c ≡ true) text
IsWritable (quoted text) = All (λ c. c ≢ double_quote) text

scan-step :
    (s : Lexer) (r : ℕ) (rest : List ℕ)
    → escapes s r rest ≡ false
    → scan (r ∷ rest) s ≡ scan rest (step s r)
unfolding scan
scan-step s r [] h = refl
scan-step s r (next ∷ rest) h = ground arith

scan_escape :
    (s : Lexer) (r next : ℕ) (rest : List ℕ)
    → escapes s r (next ∷ rest) ≡ true
    → scan (r ∷ next ∷ rest) s ≡ scan rest (push next s)
unfolding scan
scan_escape s r next rest h = ground arith

-- Inside the word so far: the runes that are read are added to `current`.
abbrev reading : List Text → ℕ → Text → Lexer
reading parts quote current = record {
  parts = parts;
  current = current;
  in_quote = quote;
  saw_token = true;
  token_started = true;
}

not_outside : (s : Lexer) (r : ℕ) (rest : List ℕ) → s.in_quote ≡ 0 → escapes s r rest ≡ false
unfolding escapes
not_outside s r [] h = refl
not_outside s r (next ∷ rest) h = ground arith

not_backslash :
    (s : Lexer) (r : ℕ) (rest : List ℕ) → (r == backslash) ≡ false → escapes s r rest ≡ false
unfolding escapes
not_backslash s r [] h = refl
not_backslash s r (next ∷ rest) h = ground arith

step_plain :
    (parts : List Text) (current : Text) (r : ℕ)
    → is_plain r ≡ true
    → step (reading parts 0 current) r ≡ reading parts 0 (current ++ r ∷ [])
unfolding step
step_plain parts current r h = ground arith

step_inside :
    (parts : List Text) (current : Text) (r : ℕ)
    → r ≢ double_quote
    → step (reading parts double_quote current) r ≡ reading parts double_quote (current ++ r ∷ [])
unfolding step
step_inside parts current r h = ground arith

join_current :
    (parts : List Text) (current : Text) (r : ℕ) (text rest : Text)
    → scan rest (reading parts 0 ((current ++ r ∷ []) ++ text))
      ≡ scan rest (reading parts 0 (current ++ r ∷ text))
join_current parts current r text rest =
    ap (λ c. scan rest (reading parts 0 c)) (append_assoc current (r ∷ []) text)

scan_plain :
    (parts : List Text) (current text rest : Text)
    → All (λ c. is_plain c ≡ true) text
    → scan (text ++ rest) (reading parts 0 current) ≡ scan rest (reading parts 0 (current ++ text))
scan_plain parts current [] rest h = rw append-nil
scan_plain parts current (r ∷ text) rest h =
    scan-step (reading parts 0 current) r (text ++ rest) (not_outside _ r (text ++ rest) refl)
    ∙ ap (scan (text ++ rest)) (step_plain parts current r h.0)
    ∙ scan_plain parts (current ++ r ∷ []) text rest h.1
    ∙ join_current parts current r text rest

scan_close :
    (parts : List Text) (current rest : Text)
    → scan (double_quote ∷ rest) (reading parts double_quote current)
      ≡ scan rest (reading parts 0 current)
unfolding step
scan_close parts current rest =
    scan-step (reading parts double_quote current) double_quote rest
      (not_backslash _ double_quote rest refl)

push_inside :
    (parts : List Text) (current : Text) (r : ℕ)
    → push r (reading parts double_quote current) ≡ reading parts double_quote (current ++ r ∷ [])
unfolding push
push_inside parts current r = refl

scan_quoted :
    (parts : List Text) (current text rest : Text)
    → All (λ c. c ≢ double_quote) text
    → scan (escape text ++ double_quote ∷ rest) (reading parts double_quote current)
      ≡ scan rest (reading parts 0 (current ++ text))
scan_quoted parts current [] rest h =
    scan_close parts current rest
    ∙ ap (λ c. scan rest (reading parts 0 c)) (sym (append-nil current))
scan_quoted parts current (r ∷ text) rest h = elim (Bool-cases (r == backslash)) [
  | inl slash ↦ rw slash (
      scan_escape (reading parts double_quote current) backslash backslash
        (escape text ++ double_quote ∷ rest) (unfold escapes in refl)
      ∙ ap (scan (escape text ++ double_quote ∷ rest)) (push_inside parts current backslash)
      ∙ scan_quoted parts (current ++ backslash ∷ []) text rest h.1
      ∙ join_current parts current backslash text rest
      ∙ ap (λ c. scan rest (reading parts 0 (current ++ c ∷ text)))
          (sym ((==_iff r backslash).0 slash)))
  | inr other ↦ rw other (
      scan-step (reading parts double_quote current) r (escape text ++ double_quote ∷ rest)
        (not_backslash _ r _ other)
      ∙ ap (scan (escape text ++ double_quote ∷ rest)) (step_inside parts current r h.0)
      ∙ scan_quoted parts (current ++ r ∷ []) text rest h.1
      ∙ join_current parts current r text rest)
]

-- From between two words, over a word.
abbrev between : List Text → Bool → Lexer
between parts saw = record {
  parts = parts;
  current = [];
  in_quote = 0;
  saw_token = saw;
  token_started = false;
}

step_first :
    (parts : List Text) (saw : Bool) (r : ℕ)
    → is_plain r ≡ true
    → step (between parts saw) r ≡ reading parts 0 (r ∷ [])
unfolding step
step_first parts saw r h = ground arith

scan_word :
    (parts : List Text) (saw : Bool) (w : Word) (rest : Text)
    → IsWritable w
    → scan (write w ++ rest) (between parts saw) ≡ scan rest (reading parts 0 (text_of w))
scan_word parts saw (bare r text) rest h =
    scan-step (between parts saw) r (text ++ rest) (not_outside _ r (text ++ rest) refl)
    ∙ ap (scan (text ++ rest)) (step_first parts saw r h.0)
    ∙ scan_plain parts (r ∷ []) text rest h.1
scan_word parts saw (quoted text) rest h =
    scan-step (between parts saw) double_quote _ (not_outside _ double_quote _ refl)
    ∙ ap (λ t. scan t (step (between parts saw) double_quote))
        (append_assoc (escape text) (double_quote ∷ []) rest)
    ∙ unfold step in scan_quoted parts [] text rest h

not_nil : (parts : List Text) (p : Text) → is_nil (parts ++ p ∷ []) ≡ false
unfolding is_nil
not_nil [] p = refl
not_nil (q ∷ parts) p = refl

finish-reading :
    (parts : List Text) (current : Text)
    → finish (reading parts 0 current) ≡ ok (parts ++ current ∷ [])
unfolding finish
finish-reading parts current = rw (not_nil parts current)

step_space :
    (parts : List Text) (current : Text)
    → step (reading parts 0 current) b' ' ≡ between (parts ++ current ∷ []) true
unfolding step
step_space parts current = refl

-- From the end of a word to the end of the line.
finish_rest :
    (parts : List Text) (current : Text) (ws : List Word)
    → All IsWritable ws
    → finish (scan (write_rest ws) (reading parts 0 current))
      ≡ ok (parts ++ current ∷ map text_of ws)
finish_rest parts current [] h = unfold scan in finish-reading parts current
finish_rest parts current (w ∷ ws) h =
    ap finish (
      scan-step (reading parts 0 current) b' ' (write w ++ write_rest ws)
        (not_outside _ b' ' _ refl)
      ∙ ap (scan (write w ++ write_rest ws)) (step_space parts current)
      ∙ scan_word (parts ++ current ∷ []) true w (write_rest ws) h.0)
    ∙ finish_rest (parts ++ current ∷ []) (text_of w) ws h.1
    ∙ ap ok (append_assoc parts (current ∷ []) (text_of w ∷ map text_of ws))

-- A line of one word or more, each bare and not empty, without spaces and quotes, or in double
-- quotes without double quotes inside and with each backslash doubled, is split into exactly the
-- texts of the words.
pub parse_command-write_line :
    (w : Word) (ws : List Word)
    → All IsWritable (w ∷ ws)
    → parse_command (write_line w ws) ≡ ok (map text_of (w ∷ ws))
unfolding parse_command start
parse_command-write_line w ws h =
    ap finish (scan_word [] false w (write_rest ws) h.0) ∙ finish_rest [] (text_of w) ws h.1
