-- ===== src/Prelude/Text.antt =====
-- Go's strings as lists of code points (or of bytes, where the code walks bytes), and Go's `int`.
use git_gym.Prelude.Tests.{◌==◌, leb, ltb, if◌then◌else◌}
use Prim.Native.Nat.{ℕ, ◌+◌, ◌-◌, ◌*◌, ◌^◌}
use Prim.Native.Char.{code}
use Prim.Native.String.{String}
use mathlib.Core.Path.{◌≡◌, refl}
use mathlib.Core.Bool.{Bool, true, false, ◌&&◌, ◌||◌}
use mathlib.Core.List.{List, [], ◌∷◌, reverse}
use mathlib.Core.Option.{Option, none, some}
use native.Mathlib.Omega.{arith}

abbrev pub Text : Type 0
Text = List ℕ

-- A literal of the source.
abbrev pub codes : String → Text
codes String.[] = []
codes (String.◌∷◌ c s) = code c ∷ codes s

-- `s == ""`.
abbrev pub is_empty : Text → Bool
is_empty [] = true
is_empty (c ∷ s) = false

-- `s == t`.
unfoldable pub text_eq : Text → Text → Bool
text_eq [] [] = true
text_eq [] (d ∷ t) = false
text_eq (c ∷ s) [] = false
text_eq (c ∷ s) (d ∷ t) = c == d && text_eq s t

pub text_eq→eq : (s t : Text) → text_eq s t ≡ true → s ≡ t
unfolding text_eq
text_eq→eq [] [] h = refl
text_eq→eq [] (d ∷ t) h = cc
text_eq→eq (c ∷ s) [] h = cc
text_eq→eq (c ∷ s) (d ∷ t) h = ground (arith, text_eq→eq s t)

pub text_eq_refl : (s : Text) → text_eq s s ≡ true
unfolding text_eq
text_eq_refl [] = refl
text_eq_refl (c ∷ s) = ground (arith, text_eq_refl s)

-- `negsuc n` is -(n + 1).
pub data ℤ : Type 0 where
  pos : ℕ → ℤ
  negsuc : ℕ → ℤ

-- `n <= 0`.
abbrev pub non_positive : ℤ → Bool
non_positive (pos n) = n == 0
non_positive (negsuc n) = true

abbrev pub pos_part : ℤ → ℕ
pos_part (pos n) = n
pos_part (negsuc n) = 0

-- `unicode.IsSpace`.
abbrev pub is_unicode_space : ℕ → Bool
is_unicode_space c =
    (leb 9 c && leb c 13)
    || (c == 32
        || (c == 0x85
            || (c == 0xa0
                || (c == 0x1680
                    || ((leb 0x2000 c && leb c 0x200a)
                        || (c == 0x2028
                            || (c == 0x2029 || (c == 0x202f || (c == 0x205f || c == 0x3000)))))))))

-- `strings.TrimSpace(s) == ""`.
unfoldable pub is_blank : Text → Bool
is_blank [] = true
is_blank (c ∷ s) = is_unicode_space c && is_blank s

-- `strings.TrimSpace`.
unfoldable pub trim_left : Text → Text
trim_left [] = []
trim_left (c ∷ s) = if is_unicode_space c then trim_left s else c ∷ s

unfoldable pub trim : Text → Text
unfolding trim_left
trim s = reverse (trim_left (reverse (trim_left s)))

-- `strings.ToLower`, where only ASCII letters matter.
unfoldable pub ascii_lower : ℕ → ℕ
ascii_lower c = if leb b'A' c && leb c b'Z' then c + 32 else c

unfoldable pub to_lower : Text → Text
unfolding ascii_lower
to_lower [] = []
to_lower (c ∷ s) = ascii_lower c ∷ to_lower s

-- `strconv.ParseUint(s, 10, 64)`.
unfoldable pub decimal : ℕ → Text → Option ℕ
decimal n [] = some n
decimal n (c ∷ s) =
    let rest = decimal (10 * n + (c - b'0')) s in if leb b'0' c && leb c b'9' then rest else none

below_64 : Option ℕ → Option ℕ
below_64 none = none
below_64 (some n) = if ltb n (2 ^ 64) then some n else none

unfoldable pub parse_uint : Text → Option ℕ
unfolding decimal below_64
parse_uint [] = none
parse_uint (c ∷ s) = below_64 (decimal 0 (c ∷ s))
