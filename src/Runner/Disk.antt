-- ===== src/Runner/Disk.antt =====
-- The files and the repository of a workspace: snapshots.go, templates.go and workspaces.go of
-- services/runner/internal/engine, and
-- resetWorkspaceContents of services/runner/internal/http/handlers/resets.go. The calls of os and of git are parameters.
pub mod Status
pub mod Handlers
pub mod Create
mod Examples
use git_gym.Prelude.{
  reverse, map, ℕ, Bool, true, false, not, ◌&&◌, Option, none, some, List, [], ◌∷◌, ◌==◌,
  if◌then◌else◌,
}
use git_gym.Prelude.Text.{Text, codes, trim, is_empty, text_eq}
use git_gym.Prelude.Result.{Result, ok, err}
use git_gym.Runner.Command.Run.{Snapshot}
use git_gym.Runner.Workspace.{
  PathEnv, PathError, not_exist, path_error, Found, found, failed, resolve_workspace_path,
}

-- `git args` in a directory gives its output, or the error and the output. `template_first` says
-- whether the map of InitStandardTemplate gives README.md first.
pub record Disk (W : Type 0) : Type 0 where
  pub mkdir_all : Text → W → Result Text (Unit {0}) × W
  pub mkdir_temp : Text → Text → W → Result Text Text × W
  pub remove_all : Text → W → Result Text (Unit {0}) × W
  pub write_file : Text → Text → W → Result Text (Unit {0}) × W
  pub read_dir : Text → W → Result Text (List Text) × W
  pub git : List Text → Text → W → Result Text Text × W
  pub now : W → ℕ × W
  pub join : Text → Text → Text
  pub base : Text → Text
  pub template_first : W → Bool × W

-- `value, err := call; if err != nil { return err }`.
infixl 5 ◌>>=◌
abbrev pub ◌>>=◌ :
    {W A B : Type 0} → (W → Result Text A × W) → (A → W → Result Text B × W) → W → Result Text B × W
◌>>=◌ call k w = let (out, w') = call w in elim out [ ok a ↦ k a w' | err e ↦ (err e, w') ]

abbrev pub done : {W A : Type 0} → A → W → Result Text A × W
done a w = (ok a, w)

-- `strings.Split(s, "\n")`; `line` is what was read of the line.
unfoldable pub split_newlines : Text → Text → List Text
split_newlines line [] = reverse line ∷ []
split_newlines line (c ∷ s) =
    if c == b'\n' then reverse line ∷ split_newlines [] s else split_newlines (c ∷ line) s

unfoldable pub status_summary : Text → List Text
unfolding split_newlines trim
status_summary output = if is_empty (trim output) then [] else split_newlines [] (trim output)

pub record Workspace : Type 0 where
  pub id : Text
  pub path : Text
  pub template : Text

abbrev pub init_commands : List (List Text)
init_commands = map (map codes) (
    ("init" ∷ "-b" ∷ "main" ∷ [])
    ∷ ("config" ∷ "user.name" ∷ "GitGym Test" ∷ [])
    ∷ ("config" ∷ "user.email" ∷ "test@gitgym.dev" ∷ [])
    ∷ ("add" ∷ "." ∷ [])
    ∷ ("commit" ∷ "-m" ∷ "Initial commit" ∷ [])
    ∷ [])

abbrev readme_file : Text × Text
readme_file = (codes "README.md", codes "# Standard Template\n")

abbrev ignore_file : Text × Text
ignore_file = (codes ".gitignore", codes ".git/\n")

module _ {W : Type 0} (disk : Disk W) where
  git_in : Text → List Text → W → Result Text Text × W
  git_in workspace_path args = disk.git (codes "-C" ∷ workspace_path ∷ args) []

  unfoldable pub capture_snapshot : Text → W → Result Text Snapshot × W
  unfolding git_in status_summary trim
  capture_snapshot workspace_path =
      git_in workspace_path (codes "rev-parse" ∷ codes "HEAD" ∷ []) >>= λ head.
      git_in workspace_path (codes "branch" ∷ codes "--show-current" ∷ []) >>= λ branch.
      git_in workspace_path (codes "status" ∷ codes "--short" ∷ []) >>= λ status w.
      let (time, w') = disk.now w in
      (
        ok (record {
          head_commit = trim head;
          branch_name = trim branch;
          status_summary = status_summary status;
          captured_at = time;
        }),
        w',
      )

  unfoldable pub write_files : Text → List (Text × Text) → W → Result Text (Unit {0}) × W
  write_files workspace_path [] = done tt
  write_files workspace_path ((name, contents) ∷ files) =
      disk.write_file (disk.join workspace_path name) contents >>= λ written.
      write_files workspace_path files

  unfoldable pub init_standard_template : Text → W → Result Text (Unit {0}) × W
  unfolding write_files
  init_standard_template workspace_path w =
      let (readme_first, w') = disk.template_first w in
      write_files workspace_path
        (if readme_first then readme_file ∷ ignore_file ∷ [] else ignore_file ∷ readme_file ∷ []) w'

  unfoldable pub run_git : Text → List (List Text) → W → Result Text (Unit {0}) × W
  run_git workspace_path [] = done tt
  run_git workspace_path (args ∷ commands) =
      disk.git args workspace_path >>= λ output. run_git workspace_path commands

  unfoldable pub init_workspace_repository : Text → W → Result Text (Unit {0}) × W
  unfolding run_git
  init_workspace_repository workspace_path = run_git workspace_path init_commands

  -- `_ = os.RemoveAll(path)` in front of the error.
  removed_after : Text → Text → W → Result Text Workspace × W
  removed_after path e w = (err e, (disk.remove_all path w).1)

  with_repository : Text → Result Text (Unit {0}) × W → Result Text Workspace × W
  unfolding removed_after
  with_repository path (err e, w) = removed_after path e w
  with_repository path (ok u, w) =
      (ok (record { id = disk.base path; path = path; template = codes "standard" }), w)

  with_template : Text → Result Text (Unit {0}) × W → Result Text Workspace × W
  unfolding init_workspace_repository removed_after with_repository
  with_template path (err e, w) = removed_after path e w
  with_template path (ok u, w) = with_repository path (init_workspace_repository path w)

  fill_workspace : Text → W → Result Text Workspace × W
  unfolding init_standard_template with_template
  fill_workspace path w = with_template path (init_standard_template path w)

  unfoldable pub create_workspace : Text → W → Result Text Workspace × W
  unfolding fill_workspace
  create_workspace root = disk.mkdir_all root >>= λ made.
      disk.mkdir_temp root (codes "ws-") >>= λ path. fill_workspace path

  unfoldable pub remove_entries : Text → List Text → W → Result Text (Unit {0}) × W
  remove_entries workspace_path [] = done tt
  remove_entries workspace_path (name ∷ names) =
      disk.remove_all (disk.join workspace_path name) >>= λ removed.
      remove_entries workspace_path names

  unfoldable pub reset_workspace_contents : Text → W → Result Text (Unit {0}) × W
  unfolding remove_entries init_standard_template init_workspace_repository
  reset_workspace_contents workspace_path = disk.read_dir workspace_path >>= λ entries.
      remove_entries workspace_path entries >>= λ removed.
      init_standard_template workspace_path >>= λ written. init_workspace_repository workspace_path
