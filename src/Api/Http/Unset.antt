-- ===== src/Api/Http/Unset.antt =====
-- An empty operator token in RequireOperatorToken (middleware/operator.go).
use git_gym.Prelude.{
  ◌≡◌, ◌≢◌, refl, sym, ap, ◌∙◌, Bool, true, false, ◌&&◌, some, [], ◌∷◌, ◌++◌, arith, inl, inr,
  Bool-cases, Option-cases,
}
use mathlib.Core.List.{reverse, reverse-cons, reverse-reverse, reverse-append, append_assoc}
use git_gym.Prelude.Text.{
  Text, codes, text_eq, trim, trim_left, is_blank, is_unicode_space, ascii_lower, text_eq→eq,
}
use git_gym.Api.Http.Reply.{Handler}
use git_gym.Api.Http.Session.{unauthorized}
use git_gym.Api.Http.Operator.{require_operator_token, behind_scheme, bearer}

abbrev starts_blank : Text → Bool
starts_blank [] = false
starts_blank (c ∷ s) = is_unicode_space c

trim_left-starts : (s : Text) → starts_blank (trim_left s) ≡ false
unfolding trim_left
trim_left-starts [] = refl
trim_left-starts (c ∷ s) = ground (arith, trim_left-starts s)

-- A text of blanks alone is what trims to nothing.
trim_left-none : (s : Text) → trim_left s ≡ [] → is_blank s ≡ true
unfolding trim_left is_blank
trim_left-none [] h = refl
trim_left-none (c ∷ s) h = ground (arith, trim_left-none s)

is_blank-append : (s t : Text) → is_blank (s ++ t) ≡ (is_blank s && is_blank t)
unfolding is_blank
is_blank-append [] t = refl
is_blank-append (c ∷ s) t = ground (arith, is_blank-append s t)

is_blank-reverse : (s : Text) → is_blank (reverse s) ≡ is_blank s
unfolding is_blank
is_blank-reverse [] = refl
is_blank-reverse (c ∷ s) =
    ap is_blank (reverse-cons c s)
    ∙ is_blank-append (reverse s) (c ∷ [])
    ∙ ground (arith, is_blank-reverse s)

blank_start : (s : Text) → is_blank s ≡ true → starts_blank s ≡ false → s ≡ []
unfolding is_blank
blank_start [] h k = refl
blank_start (c ∷ s) h k = ground arith

-- What trims to nothing is blank.
trim-none : (s : Text) → trim s ≡ [] → is_blank s ≡ true
unfolding trim
trim-none s h =
    let x = trim_left s in
    let none_left : trim_left (reverse x) ≡ [] =
      sym (reverse-reverse (trim_left (reverse x))) ∙ ap reverse h in
    let blank : is_blank x ≡ true =
      sym (is_blank-reverse x) ∙ trim_left-none (reverse x) none_left in
    trim_left-none s (blank_start x blank (trim_left-starts s))

-- The scheme ends with a space.
behind_scheme-some :
    (p t rest : Text)
    → behind_scheme (p ++ 32 ∷ []) t ≡ some rest
    → (q : Text) × (t ≡ q ++ 32 ∷ rest)
unfolding behind_scheme ascii_lower
behind_scheme-some [] [] rest h = ground arith
behind_scheme-some [] (d ∷ t) rest h = ([], ground arith)
behind_scheme-some (c ∷ p) [] rest h = ground arith
behind_scheme-some (c ∷ p) (d ∷ t) rest h =
    let (q, e) = behind_scheme-some p t rest (ground arith) in (d ∷ q, ap (λ s. d ∷ s) e)

blank_before : (s q : Text) → is_blank s ≡ true → starts_blank (s ++ 32 ∷ q) ≡ true
unfolding is_blank
blank_before [] q h = refl
blank_before (c ∷ s) q h = ground arith

-- A trimmed text does not end with blanks.
trim_end : (s q rest : Text) → trim s ≡ q ++ 32 ∷ rest → is_blank rest ≢ true
unfolding trim
trim_end s q rest h blank =
    let y = trim_left (reverse (trim_left s)) in
    let back : y ≡ reverse rest ++ 32 ∷ reverse q =
      sym (reverse-reverse y)
      ∙ ap reverse h
      ∙ reverse-append q (32 ∷ rest)
      ∙ ap (λ r. r ++ reverse q) (reverse-cons 32 rest)
      ∙ append_assoc (reverse rest) (32 ∷ []) (reverse q) in
    let starts : starts_blank y ≡ true =
      ap starts_blank back
      ∙ blank_before (reverse rest) (reverse q) (is_blank-reverse rest ∙ blank) in
    ground (arith, trim_left-starts (reverse (trim_left s)))

-- Where the configured operator token is empty once it is trimmed, every request is refused as
-- unauthorized, whatever its header.
pub empty_operator_token :
    {W : Type 0} (token : Text) (next : Handler W) (header : Text) (w : W)
    → trim token ≡ []
    → require_operator_token token next header w ≡ unauthorized w
unfolding require_operator_token
empty_operator_token token next header w unset =
    elim (Option-cases (behind_scheme bearer (trim header))) [
      | inl e ↦ rw e refl
      | inr (provided, e) ↦
          let (q, split) = behind_scheme-some (codes "bearer") (trim header) provided e in
          elim (Bool-cases (text_eq (trim provided) (trim token))) [
            | inl same ↦ absurd (
                trim_end header q provided split
                  (trim-none provided (text_eq→eq (trim provided) (trim token) same ∙ unset)))
            | inr differs ↦ rw (e, differs) refl
          ]
    ]
