-- ===== src/Runner/Workspace.antt =====
-- Where the runner finds a workspace (services/runner/internal/http/handlers/commands.go), and the
-- request to delete one (deletes.go). The functions of path/filepath and os.Stat are parameters.
pub mod Delete
pub mod Delay
pub mod Inside
pub mod Accepted
mod Examples
use git_gym.Prelude.{
  ℕ, Bool, true, false, ◌&&◌, ◌||◌, Option, none, some, List, [], ◌∷◌, leb, ◌==◌, if◌then◌else◌,
}
use git_gym.Prelude.Text.{Text, codes, is_blank, text_eq}

pub data PathError : Type 0 where
  not_exist : PathError
  path_error : Text → PathError

pub data Found (A : Type 0) : Type 0 where
  found : A → Found A
  failed : PathError → Found A

-- `filepath.Abs`, `filepath.Join`, `filepath.Rel`, the separator, and `os.Stat(p).IsDir()`.
pub record PathEnv : Type 0 where
  pub abs : Text → Found Text
  pub join : Text → Text → Text
  pub rel : Text → Text → Found Text
  pub separator : ℕ
  pub stat : Text → Found Bool

abbrev pub and_then : {A B : Type 0} → Found A → (A → Found B) → Found B
and_then (found a) f = f a
and_then (failed e) f = failed e

abbrev is_alphanumeric : ℕ → Bool
is_alphanumeric c =
    (leb b'A' c && leb c b'Z') || ((leb b'a' c && leb c b'z') || (leb b'0' c && leb c b'9'))

unfoldable pub all_alphanumeric : Text → Bool
all_alphanumeric [] = true
all_alphanumeric (c ∷ s) = is_alphanumeric c && all_alphanumeric s

-- `^ws-[A-Za-z0-9]+$`.
unfoldable pub is_workspace_id : Text → Bool
unfolding all_alphanumeric
is_workspace_id (a ∷ b ∷ c ∷ d ∷ s) =
    (a == b'w' && (b == b's' && c == b'-')) && all_alphanumeric (d ∷ s)
is_workspace_id _ = false

unfoldable pub validate_workspace_id : Text → Found (Unit {0})
unfolding is_blank is_workspace_id
validate_workspace_id workspace_id =
    if is_blank workspace_id
    then failed (path_error (codes "workspace ID is required"))
    else (if is_workspace_id workspace_id
        then found tt
        else failed (path_error (codes "workspace ID is malformed")))

starts_with : Text → Text → Bool
starts_with [] s = true
starts_with (c ∷ p) [] = false
starts_with (c ∷ p) (d ∷ s) = if c == d then starts_with p s else false

-- `relativePath == ".." || strings.HasPrefix(relativePath, ".."+string(os.PathSeparator))`.
unfoldable pub escapes_root : ℕ → Text → Bool
unfolding starts_with text_eq
escapes_root separator relative_path =
    text_eq relative_path (codes "..") || starts_with (b'.' ∷ b'.' ∷ separator ∷ []) relative_path

module _ (env : PathEnv) where
  unfoldable pub resolve_workspace_cleanup_path : Text → Text → Found Text
  unfolding validate_workspace_id escapes_root
  resolve_workspace_cleanup_path work_root workspace_id =
      and_then (validate_workspace_id workspace_id) λ valid.
        and_then (env.abs work_root) λ root_abs.
          and_then (env.abs (env.join root_abs workspace_id)) λ workspace_abs.
            and_then (env.rel root_abs workspace_abs) λ relative_path.
              if escapes_root env.separator relative_path
              then failed (path_error (codes "workspace path escapes root"))
              else found workspace_abs

  unfoldable pub is_directory : Text → Found Bool → Found Text
  is_directory path (found true) = found path
  is_directory path (found false) = failed (path_error (codes "workspace path is not a directory"))
  is_directory path (failed e) = failed e

  unfoldable pub resolve_workspace_path : Text → Text → Found Text
  unfolding resolve_workspace_cleanup_path is_directory
  resolve_workspace_path work_root workspace_id =
      and_then (resolve_workspace_cleanup_path work_root workspace_id)
        λ workspace_abs. is_directory workspace_abs (env.stat workspace_abs)
