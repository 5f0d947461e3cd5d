-- ===== src/Runner/Socket/Tracker/Lines.antt =====
-- How chunks and lines meet in commandCompletionTracker of terminal_ws.go.
use git_gym.Runner.Socket.Tracker.Split.{
  split_lines-append, read_lines-append, emit, drain_as_emit, emit-append, IsHeld, emit_held,
  IsOneLine, IsOneLine-append, rest-IsOneLine, split_lines_within,
}
use git_gym.Prelude.{
  ℕ, ◌≡◌, refl, sym, ap, ◌∙◌, inl, inr, false, none, List, [], ◌∷◌, ◌++◌, ◌==◌, arith, All,
  Bool-cases,
}
use mathlib.Core.List.{append_assoc, append-nil}
use git_gym.Prelude.Text.{Text}
use git_gym.Runner.Socket.Marker.{
  terminal_command_exit_marker, parse_terminal_command_metadata_line,
  is_terminal_continuation_prompt_line, could_be_exit_marker_fragment, strip_prefix,
}
use git_gym.Runner.Socket.Tracker.{split_lines, read_line, read_lines, drain, ingest_output}

-- Let what is pending, with a first chunk, end with a line feed or with a start of the exit marker
-- behind its last line feed. Then reading the first chunk and then a second one gives the output and
-- the completions, one after the other, that reading both as one chunk gives, and leaves the same
-- text pending.
pub ingest_output-append :
    (pending a b : Text)
    → IsHeld (split_lines [] (pending ++ a)).1
    → let d = ingest_output pending a in
      let e = ingest_output d.pending b in
      ingest_output pending (a ++ b) ≡ record {
        output = d.output ++ e.output;
        completions = d.completions ++ e.completions;
        pending = e.pending;
      }
unfolding ingest_output
ingest_output-append pending a b held =
    ap (drain false) (sym (append_assoc pending a b))
    ∙ both
    ∙ emit-append (read_lines first.0) (read_lines second.0) second.1
    ∙ rw (first_drain, second_drain) refl
  where
    first : List Text × Text
    first = split_lines [] (pending ++ a)

    second : List Text × Text
    second = split_lines first.1 b

    both :
        drain false ((pending ++ a) ++ b)
        ≡ emit
            (
              (read_lines first.0).0 ++ (read_lines second.0).0,
              (read_lines first.0).1 ++ (read_lines second.0).1,
            )
            second.1
    both =
        drain_as_emit ((pending ++ a) ++ b)
        ∙ ap (λ z. emit (read_lines z.0) z.1) (split_lines-append [] (pending ++ a) b)
        ∙ ap (λ z. emit z second.1) (read_lines-append first.0 second.0)

    first_drain : drain false (pending ++ a) ≡ record {
      output = (read_lines first.0).0;
      completions = (read_lines first.0).1;
      pending = first.1;
    }
    first_drain = drain_as_emit (pending ++ a) ∙ emit_held (read_lines first.0) first.1 held

    second_drain : drain false (first.1 ++ b) ≡ emit (read_lines second.0) second.1
    second_drain =
        drain_as_emit (first.1 ++ b)
        ∙ ap (λ z. emit (read_lines z.0) z.1)
            (split_lines_within [] first.1 b (rest-IsOneLine [] (pending ++ a) tt))

-- A text in one line is kept whole.
one_line : (s : Text) → IsOneLine s → split_lines [] s ≡ ([], s)
unfolding split_lines
one_line s h = ap (split_lines []) (sym (append-nil s)) ∙ split_lines_within [] s [] h

past_marker :
    (c : ℕ) (r : Text)
    → could_be_exit_marker_fragment (terminal_command_exit_marker ++ c ∷ r) ≡ false
unfolding could_be_exit_marker_fragment strip_prefix
past_marker c r = refl

marker-IsOneLine : IsOneLine terminal_command_exit_marker
marker-IsOneLine = (
  refl,
  (
    refl,
    (
      refl,
      (
        refl,
        (
          refl,
          (
            refl,
            (
              refl,
              (
                refl,
                (
                  refl,
                  (
                    refl,
                    (
                      refl,
                      (
                        refl,
                        (
                          refl,
                          (
                            refl,
                            (
                              refl,
                              (refl, (refl, (refl, (refl, (refl, (refl, (refl, (refl, tt)))))))),
                            ),
                          ),
                        ),
                      ),
                    ),
                  ),
                ),
              ),
            ),
          ),
        ),
      ),
    ),
  ),
)

-- A chunk that has the exit marker, at least one byte more and no line feed is passed on as output
-- at once, so nothing of it is pending and no completion is read.
pub split_report_leaks :
    (c : ℕ) (r : Text)
    → IsOneLine (c ∷ r)
    → ingest_output [] (terminal_command_exit_marker ++ c ∷ r)
      ≡ record { output = terminal_command_exit_marker ++ c ∷ r; completions = []; pending = [] }
unfolding ingest_output read_lines
split_report_leaks c r h =
    drain_as_emit (terminal_command_exit_marker ++ c ∷ r)
    ∙ ap (λ z. emit (read_lines z.0) z.1)
        (one_line (terminal_command_exit_marker ++ c ∷ r)
          (IsOneLine-append terminal_command_exit_marker (c ∷ r) marker-IsOneLine h))
    ∙ rw (past_marker c r) refl

concat : List Text → Text
concat [] = []
concat (line ∷ lines) = line ++ concat lines

-- Nothing is lost by splitting.
concat-split_lines :
    (line s : Text) → concat (split_lines line s).0 ++ (split_lines line s).1 ≡ line ++ s
unfolding split_lines concat
concat-split_lines line [] = sym (append-nil line)
concat-split_lines line (c ∷ s) = elim (Bool-cases (c == 10)) [
  | inl hit ↦ ground (
    arith,
    concat-split_lines [] s,
    append_assoc line (c ∷ []) s,
    append_assoc (line ++ c ∷ []) (concat (split_lines [] s).0) (split_lines [] s).1,
  )
  | inr miss ↦ ground (arith, concat-split_lines (line ++ c ∷ []) s, append_assoc line (c ∷ []) s)
]

-- A line that the tracker does not keep to itself.
abbrev pub IsOutput : Text → Type 0
IsOutput line =
    (parse_terminal_command_metadata_line line ≡ none)
    × (is_terminal_continuation_prompt_line line ≡ false)

read_lines_output : (lines : List Text) → All IsOutput lines → read_lines lines ≡ (concat lines, [])
unfolding read_lines concat
read_lines_output [] h = refl
read_lines_output (line ∷ lines) h = ap (read_line line) (read_lines_output lines h.1) ∙ output_line
  where
    output_line : read_line line (concat lines, []) ≡ (line ++ concat lines, [])
    output_line = rw (h.0.0, h.0.1, read_line) refl

-- Where no complete line of what is pending with a chunk is a report or a continuation prompt, the
-- output and what is then pending are together the bytes that were pending and the chunk, and there
-- is no completion.
pub plain_output_passes :
    (pending chunk : Text)
    → All IsOutput (split_lines [] (pending ++ chunk)).0
    → let d = ingest_output pending chunk in
      (d.output ++ d.pending ≡ pending ++ chunk) × (d.completions ≡ [])
unfolding ingest_output
plain_output_passes pending chunk plain =
    rw
      (
        drain_as_emit (pending ++ chunk),
        read_lines_output (split_lines [] (pending ++ chunk)).0 plain,
      )
      (ground (
        arith,
        concat-split_lines [] (pending ++ chunk),
        append-nil
            (concat (split_lines [] (pending ++ chunk)).0 ++ (split_lines [] (pending ++ chunk)).1),
      ))
