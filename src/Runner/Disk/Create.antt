-- ===== src/Runner/Disk/Create.antt =====
-- What CreateWorkspace (engine/workspaces.go, http/handlers/workspaces.go) leaves on the disk.
use mathlib.Core.Path.{subst}
use git_gym.Prelude.{
  if◌then◌else◌, Bool, true, false, List, [], ◌∷◌, arith, ◌≡◌, refl, sym, ap, ◌∙◌, ◌⊎◌, inl, inr,
}
use git_gym.Prelude.Text.{Text, codes}
use git_gym.Prelude.Result.{Result, ok, err}
use git_gym.Runner.Disk.{
  init_commands, readme_file, ignore_file, write_files, run_git, Disk, ◌>>=◌, Workspace,
  create_workspace, with_repository, with_template, fill_workspace, removed_after,
  init_standard_template, init_workspace_repository,
}

bind_cases :
    {W A B : Type 0} (call : W → Result Text A × W) (k : A → W → Result Text B × W) (w w' : W)
    (out : Result Text B)
    → (call >>= k) w ≡ (out, w')
    → ((e : Text) × (call w ≡ (err e, w')) × (out ≡ err e))
      ⊎ ((a : A) × (u : W) × (call w ≡ (ok a, u)) × (k a u ≡ (out, w')))
bind_cases {W} {A} {B} call k w w' out h = go (call w) refl h
  where
    go :
        (r : Result Text A × W)
        → call w ≡ r
        → ◌≡◌ {A = Result Text B × W} (elim r.0 [ ok a ↦ k a r.1 | err e ↦ (err e, r.1) ]) (out, w')
        → ((e : Text) × (call w ≡ (err e, w')) × (out ≡ err e))
          ⊎ ((a : A) × (u : W) × (call w ≡ (ok a, u)) × (k a u ≡ (out, w')))
    go (ok a, u) e q = inr (a, u, e, q)
    go (err x, u) e q = inl (x, e ∙ ap (λ v. (err x, v)) (ap (λ p. p.1) q), ap (λ p. p.0) (sym q))

module _ {W : Type 0} (disk : Disk W) where
  -- The calls that fill the workspace came back without an error.
  abbrev pub IsReady : Text → W → Workspace → W → Type 0
  IsReady path v workspace w' =
      (u : W) × (init_standard_template disk path v ≡ (ok tt, u))
      × (init_workspace_repository disk path u ≡ (ok tt, w'))
      × (workspace ≡ record { id = disk.base path; path = path; template = codes "standard" })

  -- The last thing done was to remove the directory.
  abbrev pub IsRemoved : Text → W → Type 0
  IsRemoved path w' = (u : W) × (w' ≡ (disk.remove_all path u).1)

  abbrev pub Outcome : Text → W → Result Text Workspace → W → Type 0
  Outcome path v out w' =
      ((workspace : Workspace) × (out ≡ ok workspace) × IsReady path v workspace w')
      ⊎ ((e : Text) × (out ≡ err e) × IsRemoved path w')

  with_repository_ends :
      (path : Text) (v u w' : W) (started : Result Text (Unit {0}) × W)
      (out : Result Text Workspace)
      → init_standard_template disk path v ≡ (ok tt, u)
      → init_workspace_repository disk path u ≡ started
      → with_repository disk path started ≡ (out, w')
      → Outcome path v out w'
  unfolding with_repository removed_after
  with_repository_ends path v u w' (err e, x) out written started h =
      inr (e, ap (λ p. p.0) (sym h), (x, ap (λ p. p.1) (sym h)))
  with_repository_ends path v u w' (ok _, x) out written started h = inl (
    _,
    ap (λ p. p.0) (sym h),
    (u, written, started ∙ ap (λ y. (ok tt, y)) (ap (λ p. p.1) h), refl),
  )

  fill_ends :
      (path : Text) (v w' : W) (out : Result Text Workspace)
      → fill_workspace disk path v ≡ (out, w')
      → Outcome path v out w'
  unfolding fill_workspace
  fill_ends path v w' out h = go (init_standard_template disk path v) refl h
    where
      go :
          (written : Result Text (Unit {0}) × W)
          → init_standard_template disk path v ≡ written
          → with_template disk path written ≡ (out, w')
          → Outcome path v out w'
      go (err e, u) same k = inr (e, ap (λ p. p.0) (sym k), (u, ap (λ p. p.1) (sym k)))
      go (ok _, u) written k =
          with_repository_ends path v u w' (init_workspace_repository disk path u) out written refl
            k

  -- Nothing was made, or the directory for a new workspace was.
  abbrev pub Begins : Text → W → Result Text Workspace → W → Type 0
  Begins root w out w' =
      ((e : Text) × (disk.mkdir_all root w ≡ (err e, w')) × (out ≡ err e))
      ⊎ ((u : W) × (disk.mkdir_all root w ≡ (ok tt, u))
          × (((e : Text) × (disk.mkdir_temp root (codes "ws-") u ≡ (err e, w')) × (out ≡ err e))
              ⊎ ((path : Text) × (v : W) × (disk.mkdir_temp root (codes "ws-") u ≡ (ok path, v))
                  × Outcome path v out w')))

  -- The files stand written in turn, and the commands of git ran in turn, each without an error.
  abbrev pub Written : Text → List (Text × Text) → W → W → Type 0
  Written path [] w w' = w' ≡ w
  Written path ((name, contents) ∷ files) w w' =
      (u : W) × (disk.write_file (disk.join path name) contents w ≡ (ok tt, u))
      × Written path files u w'

  abbrev pub GitRan : Text → List (List Text) → W → W → Type 0
  GitRan path [] w w' = w' ≡ w
  GitRan path (args ∷ commands) w w' =
      (output : Text) × (u : W) × (disk.git args path w ≡ (ok output, u))
      × GitRan path commands u w'

  -- The two files of the template are written, in one of the two orders, and the repository is begun
  -- on `main`, with the name and the address of its author, and with one commit of everything.
  abbrev pub IsFilled : Text → W → Workspace → W → Type 0
  IsFilled path v workspace w' =
      let readme : Text × Text = (codes "README.md", codes "# Standard Template\n") in
      let ignore : Text × Text = (codes ".gitignore", codes ".git/\n") in
      (u : W) × (Written path (readme ∷ ignore ∷ []) (disk.template_first v).1 u
        ⊎ Written path (ignore ∷ readme ∷ []) (disk.template_first v).1 u)
      × GitRan path
          ((codes "init" ∷ codes "-b" ∷ codes "main" ∷ [])
            ∷ (codes "config" ∷ codes "user.name" ∷ codes "GitGym Test" ∷ [])
            ∷ (codes "config" ∷ codes "user.email" ∷ codes "test@gitgym.dev" ∷ [])
            ∷ (codes "add" ∷ codes "." ∷ [])
            ∷ (codes "commit" ∷ codes "-m" ∷ codes "Initial commit" ∷ [])
            ∷ [])
          u w'
      × (workspace ≡ record { id = disk.base path; path = path; template = codes "standard" })

  write_files-Written :
      (path : Text) (files : List (Text × Text)) (w w' : W)
      → write_files disk path files w ≡ (ok tt, w')
      → Written path files w w'
  unfolding write_files
  write_files-Written path [] w w' h = ap (λ p. p.1) (sym h)
  write_files-Written path ((name, contents) ∷ files) w w' h =
      elim (bind_cases (disk.write_file (disk.join path name) contents)
        (λ written. write_files disk path files) w w' (ok tt) h) [
          | inl (e, _, bad) ↦ absurd cc
          | inr (_, u, wrote, k) ↦ (u, wrote, write_files-Written path files u w' k)
        ]

  run_git-GitRan :
      (path : Text) (commands : List (List Text)) (w w' : W)
      → run_git disk path commands w ≡ (ok tt, w')
      → GitRan path commands w w'
  unfolding run_git
  run_git-GitRan path [] w w' h = ap (λ p. p.1) (sym h)
  run_git-GitRan path (args ∷ commands) w w' h =
      elim (bind_cases (disk.git args path) (λ output. run_git disk path commands) w w' (ok tt) h) [
        | inl (e, _, bad) ↦ absurd cc
        | inr (output, u, ran, k) ↦ (output, u, ran, run_git-GitRan path commands u w' k)
      ]

  ready-IsFilled :
      (path : Text) (v w' : W) (workspace : Workspace)
      → IsReady path v workspace w'
      → IsFilled path v workspace w'
  unfolding init_standard_template init_workspace_repository
  ready-IsFilled path v w' workspace (u, wrote, began, same) =
      (u, order (disk.template_first v).0 wrote, run_git-GitRan path init_commands u w' began, same)
    where
      order :
          (readme_first : Bool)
          → write_files disk path
              (if readme_first
                then readme_file ∷ ignore_file ∷ []
                else ignore_file ∷ readme_file ∷ [])
              (disk.template_first v).1
            ≡ (ok tt, u)
          → Written path (readme_file ∷ ignore_file ∷ []) (disk.template_first v).1 u
            ⊎ Written path (ignore_file ∷ readme_file ∷ []) (disk.template_first v).1 u
      order true h =
          inl (
            write_files-Written path (readme_file ∷ ignore_file ∷ []) (disk.template_first v).1 u h)
      order false h =
          inr (
            write_files-Written path (ignore_file ∷ readme_file ∷ []) (disk.template_first v).1 u h)

  -- CreateWorkspace fails where the root or the new directory cannot be made; where they can, it
  -- ends with the workspace of this directory after its template is written and its repository has
  -- its first commit, or with an error, and then the removal of this directory is the last thing
  -- that it does.
  create_workspace_lem :
      (root : Text) (w w' : W) (out : Result Text Workspace)
      → create_workspace disk root w ≡ (out, w')
      → Begins root w out w'
  unfolding create_workspace
  create_workspace_lem root w w' out h =
      elim (bind_cases (disk.mkdir_all root)
        (λ made. disk.mkdir_temp root (codes "ws-") >>= fill_workspace disk) w w' out h) [
          | inl none_made ↦ inl none_made
          | inr (_, u, made, k) ↦ inr (
            u,
            made,
            elim (bind_cases (disk.mkdir_temp root (codes "ws-")) (fill_workspace disk) u w' out
                k) [
                  | inl no_directory ↦ inl no_directory
                  | inr (path, v, directory, q) ↦
                      inr (path, v, directory, fill_ends path v w' out q)
                ],
          )
        ]

  pub created-IsFilled :
      (root : Text) (w w' : W) (workspace : Workspace)
      → create_workspace disk root w ≡ (ok workspace, w')
      → (path : Text) × (u : W) × (v : W) × (disk.mkdir_temp root (codes "ws-") u ≡ (ok path, v))
        × IsFilled path v workspace w'
  created-IsFilled root w w' workspace h = elim (create_workspace_lem root w w' (ok workspace) h) [
    | inl (e, _, bad) ↦ absurd cc
    | inr (u, made, inl (e, _, bad)) ↦ absurd cc
    | inr (u, made, inr (path, v, directory, inr (e, bad, _))) ↦ absurd cc
    | inr (u, made, inr (path, v, directory, inl (filled, same, is_filled))) ↦ (
      path,
      u,
      v,
      directory,
      subst (λ x. IsFilled path v x w') (same_workspace filled workspace (sym same))
          (ready-IsFilled path v w' filled is_filled),
    )
  ]
    where
      same_workspace : (a b : Workspace) → ◌≡◌ {A = Result Text Workspace} (ok a) (ok b) → a ≡ b
      same_workspace a b k = ground arith
