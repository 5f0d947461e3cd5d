-- ===== src/Api/Http/Operator.antt =====
-- RequireOperatorToken of middleware/operator.go.
use git_gym.Prelude.{Option, none, some, [], ◌∷◌, ◌==◌, if◌then◌else◌}
use git_gym.Prelude.Text.{Text, codes, text_eq, trim, ascii_lower}
use git_gym.Api.Http.Reply.{Handler}
use git_gym.Api.Http.Session.{unauthorized}

abbrev pub bearer : Text
bearer = codes "bearer "

-- The text behind the scheme: the slice from the length of "Bearer ".
unfoldable pub behind_scheme : Text → Text → Option Text
behind_scheme [] s = some s
behind_scheme (c ∷ p) [] = none
behind_scheme (c ∷ p) (d ∷ s) = if c == ascii_lower d then behind_scheme p s else none

check_token : {W : Type 0} → Text → Handler W → Option Text → Handler W
check_token expected next none w = unauthorized w
check_token expected next (some provided) w =
    if text_eq (trim provided) expected then next w else unauthorized w

unfoldable pub require_operator_token : {W : Type 0} → Text → Handler W → Text → Handler W
unfolding check_token behind_scheme trim text_eq
require_operator_token token next header =
    check_token (trim token) next (behind_scheme bearer (trim header))
