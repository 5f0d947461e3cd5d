-- ===== src/Runner/Disk/Status.antt =====
-- What CaptureSnapshot (engine/snapshots.go) makes of the output of `git status --short`.
use mathlib.Core.List.{
  reverse_aux, reverse-append, reverse-reverse, append_assoc, reverse-cons, append-nil,
}
use git_gym.Prelude.{
  ◌≡◌, refl, sym, ap, ◌∙◌, Bool, true, false, not, ◌&&◌, List, [], ◌∷◌, ◌++◌, reverse, arith, ◌==◌,
  if◌then◌else◌, All,
}
use git_gym.Prelude.Text.{Text, is_unicode_space, is_empty, trim, trim_left}
use git_gym.Runner.Disk.{status_summary, split_newlines}

-- The last character is there and is no space.
abbrev ends_well : Text → Bool
ends_well [] = false
ends_well (c ∷ s) = if is_empty s then not (is_unicode_space c) else ends_well s

abbrev has_no_newline : Text → Bool
has_no_newline [] = true
has_no_newline (c ∷ s) = not (c == b'\n') && has_no_newline s

-- A line as git prints one.
abbrev pub IsStatusLine : Text → Type 0
IsStatusLine l = (ends_well l ≡ true) × (has_no_newline l ≡ true)

abbrev pub unlines : List Text → Text
unlines [] = []
unlines (l ∷ ls) = l ++ b'\n' ∷ unlines ls

abbrev joined : Text → List Text → Text
joined l [] = l
joined l (m ∷ ls) = l ++ b'\n' ∷ joined m ls

unlines-joined : (l : Text) (ls : List Text) → unlines (l ∷ ls) ≡ joined l ls ++ b'\n' ∷ []
unlines-joined l [] = refl
unlines-joined l (m ∷ ls) =
    ap (λ s. l ++ b'\n' ∷ s) (unlines-joined m ls)
    ∙ sym (append_assoc l (b'\n' ∷ joined m ls) (b'\n' ∷ []))

trim_left-append : (l r : Text) → ends_well l ≡ true → trim_left (l ++ r) ≡ trim_left l ++ r
unfolding trim_left
trim_left-append [] r h = absurd cc
trim_left-append (c ∷ []) r h = ground arith
trim_left-append (c ∷ d ∷ s) r h = ground (arith, trim_left-append (d ∷ s) r)

trim_left-joined :
    (l : Text) (ls : List Text) (r : Text)
    → ends_well l ≡ true
    → trim_left (joined l ls ++ r) ≡ joined (trim_left l) ls ++ r
trim_left-joined l [] r h = trim_left-append l r h
trim_left-joined l (m ∷ ls) r h =
    ap trim_left (append_assoc l (b'\n' ∷ joined m ls) r)
    ∙ (trim_left-append l (b'\n' ∷ joined m ls ++ r) h
        ∙ sym (append_assoc (trim_left l) (b'\n' ∷ joined m ls) r))

ends_well-trim_left : (l : Text) → ends_well l ≡ true → ends_well (trim_left l) ≡ true
unfolding trim_left
ends_well-trim_left [] h = absurd cc
ends_well-trim_left (c ∷ []) h = ground arith
ends_well-trim_left (c ∷ d ∷ s) h = ground (arith, ends_well-trim_left (d ∷ s))

has_no_newline-trim_left :
    (l : Text) → has_no_newline l ≡ true → has_no_newline (trim_left l) ≡ true
unfolding trim_left
has_no_newline-trim_left [] h = refl
has_no_newline-trim_left (c ∷ s) h = ground (arith, has_no_newline-trim_left s)

ends_well-append : (l r : Text) → ends_well r ≡ true → ends_well (l ++ r) ≡ true
ends_well-append [] r h = h
ends_well-append (c ∷ []) (d ∷ r) h = h
ends_well-append (c ∷ []) [] h = absurd cc
ends_well-append (c ∷ d ∷ l) r h = ends_well-append (d ∷ l) r h

ends_well-joined :
    (l : Text) (ls : List Text)
    → ends_well l ≡ true
    → All IsStatusLine ls
    → ends_well (joined l ls) ≡ true
ends_well-joined l [] h lines = h
ends_well-joined l (m ∷ ls) h lines =
    ends_well-append l (b'\n' ∷ joined m ls)
      (ends_well-append (b'\n' ∷ []) (joined m ls) (ends_well-joined m ls lines.0.0 lines.1))

trim_left-reverse : (b r : Text) → ends_well b ≡ true → trim_left (reverse b ++ r) ≡ reverse b ++ r
unfolding trim_left
trim_left-reverse [] r h = absurd cc
trim_left-reverse (c ∷ []) r h = ground arith
trim_left-reverse (c ∷ d ∷ s) r h =
    let e = ap (λ t. t ++ r) (reverse-cons c (d ∷ s)) ∙ append_assoc (reverse (d ∷ s)) (c ∷ []) r in
    ap trim_left e ∙ (trim_left-reverse (d ∷ s) (c ∷ r) h ∙ sym e)

split_newlines-append :
    (line l r : Text)
    → has_no_newline l ≡ true
    → split_newlines line (l ++ r) ≡ split_newlines (reverse_aux l line) r
unfolding split_newlines
split_newlines-append line [] r h = refl
split_newlines-append line (c ∷ l) r h = ground (arith, split_newlines-append (c ∷ line) l r)

trimmed :
    (l : Text) (ls : List Text)
    → All IsStatusLine (l ∷ ls)
    → trim (unlines (l ∷ ls)) ≡ joined (trim_left l) ls
unfolding trim trim_left
trimmed l ls lines =
    let body = joined (trim_left l) ls in
    let whole = ends_well-joined (trim_left l) ls (ends_well-trim_left l lines.0.0) lines.1 in
    ap (λ s. reverse (trim_left (reverse s)))
      (ap trim_left (unlines-joined l ls) ∙ trim_left-joined l ls (b'\n' ∷ []) lines.0.0)
    ∙ (ap (λ s. reverse (trim_left s)) (reverse-append body (b'\n' ∷ []))
        ∙ (ap reverse (no_rest body whole) ∙ reverse-reverse body))
  where
    no_rest : (b : Text) → ends_well b ≡ true → trim_left (reverse b) ≡ reverse b
    no_rest b h =
        ap trim_left (sym (append-nil (reverse b)))
        ∙ (trim_left-reverse b [] h ∙ append-nil (reverse b))

split_newlines-joined :
    (l : Text) (ls : List Text)
    → has_no_newline l ≡ true
    → All IsStatusLine ls
    → split_newlines [] (joined l ls) ≡ l ∷ ls
unfolding split_newlines
split_newlines-joined l [] h lines =
    ap (split_newlines []) (sym (append-nil l))
    ∙ (split_newlines-append [] l [] h ∙ ap (λ x. x ∷ []) (reverse-reverse l))
split_newlines-joined l (m ∷ ls) h lines =
    split_newlines-append [] l (b'\n' ∷ joined m ls) h
    ∙ (ap (λ x. x ∷ split_newlines [] (joined m ls)) (reverse-reverse l)
        ∙ ap (λ xs. l ∷ xs) (split_newlines-joined m ls lines.0.1 lines.1))

split_if_there :
    (b : Text)
    → ends_well b ≡ true
    → (if is_empty b then [] else split_newlines [] b) ≡ split_newlines [] b
split_if_there [] h = absurd cc
split_if_there (c ∷ b) h = refl

-- For an output of one or more lines that each end in a character that is no white space, the status
-- summary is these lines in order, but that the white space in front of the first line is gone.
pub status_summary_lem :
    (l : Text) (ls : List Text)
    → All IsStatusLine (l ∷ ls)
    → status_summary (unlines (l ∷ ls)) ≡ trim_left l ∷ ls
unfolding status_summary
status_summary_lem l ls lines =
    ap (λ b. if is_empty b then [] else split_newlines [] b) (trimmed l ls lines)
    ∙ (split_if_there (joined (trim_left l) ls)
          (ends_well-joined (trim_left l) ls (ends_well-trim_left l lines.0.0) lines.1)
        ∙ split_newlines-joined (trim_left l) ls (has_no_newline-trim_left l lines.0.1) lines.1)
