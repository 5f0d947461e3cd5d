-- ===== src/Runner/Socket/Tracker/Split.antt =====
-- How the tracker of terminal_ws.go splits its text into lines.
use git_gym.Prelude.{
  ◌≡◌, refl, sym, ap, ◌∙◌, ◌⊎◌, inl, inr, true, false, not, List, [], ◌∷◌, ◌++◌, ◌==◌,
  if◌then◌else◌, arith, All, Bool-cases, Option-cases,
}
use mathlib.Core.List.{append_assoc, append-nil}
use git_gym.Prelude.Text.{Text}
use git_gym.Runner.Socket.Marker.{
  CommandCompletion, parse_terminal_command_metadata_line, could_be_exit_marker_fragment,
}
use git_gym.Runner.Socket.Tracker.{split_lines, read_line, read_lines, Drained, drain}

-- Splitting goes on where it stopped.
pub split_lines-append :
    (line a b : Text)
    → split_lines line (a ++ b) ≡ (
      (split_lines line a).0 ++ (split_lines (split_lines line a).1 b).0,
      (split_lines (split_lines line a).1 b).1,
    )
unfolding split_lines
split_lines-append line [] b = refl
split_lines-append line (c ∷ a) b = elim (Bool-cases (c == 10)) [
  | inl hit ↦ ground (arith, split_lines-append [] a b)
  | inr miss ↦ ground (arith, split_lines-append (line ++ c ∷ []) a b)
]

pub read_line-append :
    (line : Text) (r q : Text × List CommandCompletion)
    → read_line line (r.0 ++ q.0, r.1 ++ q.1)
      ≡ ((read_line line r).0 ++ q.0, (read_line line r).1 ++ q.1)
unfolding read_line
read_line-append line r q = elim (Option-cases (parse_terminal_command_metadata_line line)) [
  | inl e ↦ ground (arith, append_assoc line r.0 q.0)
  | inr (completion, e) ↦ ground arith
]

pub read_lines-append :
    (ls ks : List Text)
    → read_lines (ls ++ ks)
      ≡ ((read_lines ls).0 ++ (read_lines ks).0, (read_lines ls).1 ++ (read_lines ks).1)
unfolding read_lines
read_lines-append [] ks = refl
read_lines-append (line ∷ ls) ks =
    ap (read_line line) (read_lines-append ls ks)
    ∙ read_line-append line (read_lines ls) (read_lines ks)

-- What a drain without flush makes of the lines that it read and the text behind them.
abbrev pub emit : Text × List CommandCompletion → Text → Drained
emit r rest =
    if not (could_be_exit_marker_fragment rest)
    then record { output = r.0 ++ rest; completions = r.1; pending = [] }
    else record { output = r.0; completions = r.1; pending = rest }

pub drain_as_emit :
    (s : Text) → drain false s ≡ emit (read_lines (split_lines [] s).0) (split_lines [] s).1
unfolding drain
drain_as_emit s = refl

pub emit-append :
    (r q : Text × List CommandCompletion) (rest : Text)
    → emit (r.0 ++ q.0, r.1 ++ q.1) rest ≡ record {
      output = r.0 ++ (emit q rest).output;
      completions = r.1 ++ (emit q rest).completions;
      pending = (emit q rest).pending;
    }
emit-append r q rest = ground (arith, append_assoc r.0 q.0 rest)

-- The text behind the last line feed is empty or may still become the marker.
abbrev pub IsHeld : Text → Type 0
IsHeld rest = (rest ≡ []) ⊎ (could_be_exit_marker_fragment rest ≡ true)

pub emit_held :
    (r : Text × List CommandCompletion) (rest : Text)
    → IsHeld rest
    → emit r rest ≡ record { output = r.0; completions = r.1; pending = rest }
unfolding could_be_exit_marker_fragment
emit_held r rest (inl none_left) = rw none_left (ground (arith, append-nil r.0))
emit_held r rest (inr held) = ground arith

abbrev pub IsOneLine : Text → Type 0
IsOneLine = All λ c. (c == 10) ≡ false

pub IsOneLine-append : (a b : Text) → IsOneLine a → IsOneLine b → IsOneLine (a ++ b)
IsOneLine-append [] b h k = k
IsOneLine-append (c ∷ a) b h k = (h.0, IsOneLine-append a b h.1 k)

pub rest-IsOneLine : (line s : Text) → IsOneLine line → IsOneLine (split_lines line s).1
unfolding split_lines
rest-IsOneLine line [] h = h
rest-IsOneLine line (c ∷ s) h = elim (Bool-cases (c == 10)) [
  | inl hit ↦ rw (hit, split_lines) (rest-IsOneLine [] s tt)
  | inr miss ↦
      rw (miss, split_lines)
        (rest-IsOneLine (line ++ c ∷ []) s (IsOneLine-append line (c ∷ []) h (miss, tt)))
]

pub split_lines_within :
    (line a b : Text) → IsOneLine a → split_lines line (a ++ b) ≡ split_lines (line ++ a) b
unfolding split_lines
split_lines_within line [] b h = ap (λ l. split_lines l b) (sym (append-nil line))
split_lines_within line (c ∷ a) b h =
    rw (h.0, split_lines)
      (split_lines_within (line ++ c ∷ []) a b h.1
        ∙ ap (λ l. split_lines l b) (append_assoc line (c ∷ []) a))
