-- ===== src/Runner/Command/Parse.antt =====
-- parseCommand and validateCommandPolicy of services/runner/internal/engine/commands.go.
use git_gym.Prelude.{
  ℕ, Bool, true, false, not, ◌&&◌, ◌||◌, List, [], ◌∷◌, ◌++◌, ◌==◌, if◌then◌else◌,
}
use git_gym.Prelude.Text.{Text, codes, text_eq}
use git_gym.Prelude.Result.{Result, ok, err}

pub data CommandError : Type 0 where
  unterminated_quote : CommandError
  command_required : CommandError
  only_git : Text → CommandError

-- The variables of the loop; `in_quote` is 0 outside quotes.
pub record Lexer : Type 0 where
  pub parts : List Text
  pub current : Text
  pub in_quote : ℕ
  pub saw_token : Bool
  pub token_started : Bool

unfoldable pub start : Lexer
start = record { parts = []; current = []; in_quote = 0; saw_token = false; token_started = false }

unfoldable pub flush : Lexer → Lexer
flush s =
    if s.token_started
    then record s { parts = s.parts ++ s.current ∷ []; current = []; token_started = false }
    else s

-- `current = append(current, r)` with both flags set.
unfoldable pub push : ℕ → Lexer → Lexer
push r s = record s { current = s.current ++ r ∷ []; saw_token = true; token_started = true }

abbrev pub is_space : ℕ → Bool
is_space r = r == b' ' || (r == b'\t' || (r == b'\n' || r == b'\r'))

abbrev pub backslash : ℕ
backslash = 92

abbrev pub double_quote : ℕ
double_quote = 34

abbrev pub single_quote : ℕ
single_quote = 39

-- The runes behind the quote.
unfoldable pub quote_terminates_token : List ℕ → Bool
quote_terminates_token [] = true
quote_terminates_token (r ∷ rest) = is_space r

-- A backslash in quotes that takes the next rune as it is: another backslash, or the quote where no
-- token ends behind it.
unfoldable pub escapes : Lexer → ℕ → List ℕ → Bool
unfolding quote_terminates_token
escapes s r [] = false
escapes s r (next ∷ rest) =
    not (s.in_quote == 0)
    && (r == backslash
        && (next == backslash || (next == s.in_quote && not (quote_terminates_token rest))))

-- The switch for a rune that escapes nothing.
unfoldable pub step : Lexer → ℕ → Lexer
unfolding push flush
step s r =
    if not (s.in_quote == 0)
    then (if r == s.in_quote then record s { in_quote = 0 } else push r s)
    else (if r == double_quote || r == single_quote
        then record s { in_quote = r; saw_token = true; token_started = true }
        else (if is_space r then flush s else push r s))

unfoldable pub scan : List ℕ → Lexer → Lexer
unfolding escapes step push
scan [] s = s
scan (r ∷ []) s = step s r
scan (r ∷ next ∷ rest) s = elim (escapes s r (next ∷ rest)) [
  | true ↦ scan rest (push next s)
  | false ↦ scan (next ∷ rest) (step s r)
]

unfoldable pub is_nil : List Text → Bool
is_nil [] = true
is_nil (p ∷ ps) = false

unfoldable pub finish : Lexer → Result CommandError (List Text)
unfolding flush is_nil
finish s =
    if not (s.in_quote == 0)
    then err unterminated_quote
    else (if not s.saw_token || is_nil (flush s).parts
        then err command_required
        else ok (flush s).parts)

unfoldable pub parse_command : Text → Result CommandError (List Text)
unfolding scan start finish
parse_command raw = finish (scan raw start)

unfoldable pub validate_command_policy : List Text → Result CommandError (Unit {0})
validate_command_policy [] = err command_required
validate_command_policy (command ∷ args) =
    if text_eq command (codes "git") then ok tt else err (only_git command)
