-- ===== src/Runner/Disk/Handlers/Created.antt =====
-- When CreateWorkspace (services/runner/internal/http/handlers/workspaces.go) replies that there is a new
-- workspace.
use git_gym.Prelude.{◌≡◌, sym, ap, inl, inr, not, ◌&&◌, Bool-cases, arith}
use git_gym.Prelude.Text.{Text, codes, is_empty, text_eq}
use git_gym.Prelude.Result.{Result, ok, err}
use git_gym.Runner.Disk.{Disk, Workspace, create_workspace}
use git_gym.Runner.Disk.Handlers.{
  Reply, created, template, create_workspace_handler, of_template, create_reply,
}

module _ {W : Type 0} (disk : Disk W) where
  reply_created :
      (out : Result Text Workspace × W) (a : Reply) (w' : W)
      → create_reply disk out ≡ (a, w')
      → a.status ≡ 201
      → (workspace : Workspace) × (out ≡ (ok workspace, w')) × (a.body ≡ created workspace)
  unfolding create_reply
  reply_created (ok workspace, u) a w' h s =
      (workspace, ap (λ v. (ok workspace, v)) (ap (λ p. p.1) h), ap (λ p. p.0.body) (sym h))
  reply_created (err e, u) a w' h s = absurd (ground arith)

  pub handler_created :
      (work_root name : Text) (w w' : W) (a : Reply)
      → create_workspace_handler disk work_root (template name) w ≡ (a, w')
      → a.status ≡ 201
      → (workspace : Workspace) × (create_workspace disk work_root w ≡ (ok workspace, w'))
        × (a.body ≡ created workspace)
  unfolding create_workspace_handler of_template
  handler_created work_root name w w' a h s =
      elim (Bool-cases (not (is_empty name) && not (text_eq name (codes "standard")))) [
        | inl unknown ↦ absurd (ground arith)
        | inr known ↦ reply_created (create_workspace disk work_root w) a w' (ground arith) s
      ]
