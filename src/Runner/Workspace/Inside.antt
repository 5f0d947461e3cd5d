-- ===== src/Runner/Workspace/Inside.antt =====
-- The path that resolveWorkspacePath (commands.go) accepts.
use git_gym.Prelude.{
  ◌≡◌, refl, Bool, true, false, [], ◌∷◌, arith, ap, ◌∙◌, inl, inr, Bool-cases, All, ◌==◌,
}
use git_gym.Prelude.Text.{Text}
use mathlib.Core.Path.{subst}
use git_gym.Runner.Workspace.{
  PathEnv, Found, found, failed, and_then, is_workspace_id, all_alphanumeric, validate_workspace_id,
  escapes_root, resolve_workspace_cleanup_path, resolve_workspace_path, is_directory,
}

module _ (env : PathEnv) (work_root workspace_id : Text) where
  -- The path is that of the id under the root, and the way to it from the root does not go up.
  abbrev pub StaysBelow : Text → Type 0
  StaysBelow path =
      (root_abs : Text) × (relative_path : Text) × (env.abs work_root ≡ found root_abs)
      × (env.abs (env.join root_abs workspace_id) ≡ found path)
      × (env.rel root_abs path ≡ found relative_path)
      × (escapes_root env.separator relative_path ≡ false)

plain_bytes :
    (s : Text)
    → all_alphanumeric s ≡ true
    → All (λ c. ((c == b'/') ≡ false) × (((c == b'\\') ≡ false) × ((c == b'.') ≡ false))) s
unfolding all_alphanumeric
plain_bytes [] h = tt
plain_bytes (c ∷ s) h = (ground arith, plain_bytes s (ground arith))

-- No byte of a valid id is a separator or a dot.
pub workspace_id_bytes :
    (id : Text)
    → is_workspace_id id ≡ true
    → All (λ c. ((c == b'/') ≡ false) × (((c == b'\\') ≡ false) × ((c == b'.') ≡ false))) id
unfolding is_workspace_id
workspace_id_bytes [] h = cc
workspace_id_bytes (a ∷ []) h = cc
workspace_id_bytes (a ∷ b ∷ []) h = cc
workspace_id_bytes (a ∷ b ∷ c ∷ []) h = cc
workspace_id_bytes (a ∷ b ∷ c ∷ d ∷ s) h =
    (ground arith, (ground arith, (ground arith, plain_bytes (d ∷ s) (ground arith))))

and_then_lem :
    {A B : Type 0} (x : Found A) (f : A → Found B) (b : B)
    → and_then x f ≡ found b
    → (a : A) × (x ≡ found a) × (f a ≡ found b)
and_then_lem (found a) f b h = (a, refl, h)
and_then_lem (failed e) f b h = absurd cc

valid_id :
    (id : Text) (done : Unit {0})
    → validate_workspace_id id ≡ found done
    → is_workspace_id id ≡ true
unfolding validate_workspace_id
valid_id id done h = ground arith

module _ (env : PathEnv) (work_root workspace_id path : Text) where
  cleanup_path_inside :
      resolve_workspace_cleanup_path env work_root workspace_id ≡ found path
      → (is_workspace_id workspace_id ≡ true) × StaysBelow env work_root workspace_id path
  unfolding resolve_workspace_cleanup_path
  cleanup_path_inside h =
      let (done, valid, h1) = and_then_lem (validate_workspace_id workspace_id) _ path h in
      let (root_abs, rooted, h2) = and_then_lem (env.abs work_root) _ path h1 in
      let (path', joined, h3) = and_then_lem (env.abs (env.join root_abs workspace_id)) _ path h2 in
      let (relative_path, way, h4) = and_then_lem (env.rel root_abs path') _ path h3 in
      elim (Bool-cases (escapes_root env.separator relative_path)) [
        | inl out ↦ ground arith
        | inr stays ↦
            let same : path' ≡ path = ground arith in
            (
              valid_id workspace_id done valid,
              (
                root_abs,
                relative_path,
                rooted,
                subst (λ p. env.abs (env.join root_abs workspace_id) ≡ found p) same joined,
                subst (λ p. env.rel root_abs p ≡ found relative_path) same way,
                stays,
              ),
            )
      ]

  directory_is :
      (p : Text) (out : Found Bool)
      → env.stat p ≡ out
      → is_directory env p out ≡ found path
      → (p ≡ path) × (env.stat p ≡ found true)
  unfolding is_directory
  directory_is p (found true) got h = ground arith
  directory_is p (found false) got h = absurd cc
  directory_is p (failed e) got h = absurd cc

  -- Where resolveWorkspacePath returns a path, no byte of the id is a separator or a dot, the path
  -- is that of the id joined to the root, the way to it from the root does not go up, and it is a
  -- directory; this holds for whatever the functions on paths return.
  pub resolved_path_inside :
      resolve_workspace_path env work_root workspace_id ≡ found path
      → All
          (λ c. ((c == b'/') ≡ false) × (((c == b'\\') ≡ false) × ((c == b'.') ≡ false)))
          workspace_id
        × StaysBelow env work_root workspace_id path
        × (env.stat path ≡ found true)
  unfolding resolve_workspace_path
  resolved_path_inside h =
      let (p, resolved, h1) =
        and_then_lem (resolve_workspace_cleanup_path env work_root workspace_id) _ path h in
      let (same, directory) = directory_is p (env.stat p) refl h1 in
      let (valid, inside) = cleanup_path_inside (resolved ∙ ap (λ (x : Text). found x) same) in
      (
        workspace_id_bytes workspace_id valid,
        inside,
        subst (λ q. env.stat q ≡ found true) same directory,
      )
