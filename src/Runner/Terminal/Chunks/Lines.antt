-- ===== src/Runner/Terminal/Chunks/Lines.antt =====
-- What splitTerminalInputChunks of services/runner/internal/engine/terminal_sessions.go promises.
use git_gym.Prelude.{ℕ, ◌≡◌, ◌≢◌, ◌⊎◌, false, List, [], ◌∷◌, ◌++◌, All}
use git_gym.Prelude.Text.{Text}
use git_gym.Runner.Terminal.Chunks.{carriage_return, line_feed, ends_line}

abbrev pub joined : List Text → Text
joined [] = []
joined (chunk ∷ rest) = chunk ++ joined rest

abbrev pub IsPlain : Text → Type 0
IsPlain = All λ c. ends_line c ≡ false

abbrev pub IsEnd : Text → Type 0
IsEnd end =
    (end ≡ carriage_return ∷ line_feed ∷ [])
    ⊎ ((end ≡ carriage_return ∷ []) ⊎ (end ≡ line_feed ∷ []))

-- One line with its end.
abbrev pub IsLine : Text → Type 0
IsLine chunk = (body : Text) × (end : Text) × (chunk ≡ body ++ end) × IsPlain body × IsEnd end

-- Between the two no `\r\n` is cut in half.
abbrev pub Parted : Text → Text → Type 0
Parted chunk next =
    (body rest : Text) → chunk ≡ body ++ carriage_return ∷ [] → next ≢ line_feed ∷ rest

-- Lines, and at last a piece without an end, which is not empty.
abbrev pub IsChunked : List Text → Type 0
IsChunked [] = Unit
IsChunked (chunk ∷ []) = IsLine chunk ⊎ (IsPlain chunk × ((chunk ≡ []) → ⊥))
IsChunked (chunk ∷ next ∷ rest) = IsLine chunk × Parted chunk next × IsChunked (next ∷ rest)

last_of : ℕ → Text → ℕ
last_of z [] = z
last_of z (c ∷ s) = last_of c s
