-- ===== src/Runner/Disk/Examples.antt =====
-- The theorems on workspaces and their status at concrete inputs.
use git_gym.Prelude.{◌≡◌, refl, [], ◌∷◌}
use git_gym.Prelude.Text.{codes, trim_left}
use git_gym.Runner.Disk.{status_summary}
use git_gym.Runner.Disk.Status.{unlines, status_summary_lem}

-- A file that is changed but not staged, and one that git does not know.
status_summary_lem_example :
    status_summary (unlines (codes " M README.md" ∷ codes "?? a" ∷ []))
    ≡ codes "M README.md" ∷ codes "?? a" ∷ []
unfolding trim_left
status_summary_lem_example =
    status_summary_lem (codes " M README.md") (codes "?? a" ∷ []) ((refl, refl), ((refl, refl), tt))
