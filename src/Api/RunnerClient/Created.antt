-- ===== src/Api/RunnerClient/Created.antt =====
-- HTTPClient.CreateWorkspace (services/api/internal/runner/client.go) against CreateWorkspace of the
-- runner (services/runner/internal/http/handlers/workspaces.go, engine/workspaces.go).
use git_gym.Prelude.{◌≡◌, sym, ap, ◌∙◌, some, ◌++◌, arith}
use git_gym.Prelude.Text.{Text, codes}
use git_gym.Prelude.Result.{Result}
use git_gym.Prelude.Result as Results
use git_gym.Api.Errors.{ok}
use git_gym.Api.Ports as Ports
use git_gym.Api.RunnerClient.{
  Transport, Response, post, create_payload, create_workspace, check_status, decoded_reply,
  configured, send,
}
use git_gym.Runner.Disk as Disk
use git_gym.Runner.Disk.{Disk}
use git_gym.Runner.Disk.Create.{IsFilled, created-IsFilled}
use git_gym.Runner.Disk.Handlers.Created.{handler_created}
use git_gym.Runner.Disk.Handlers.{Body, created, template, create_workspace_handler}

client_created :
    {W Conn : Type 0} (transport : Transport W Conn) (base_url name : Text) (response : Response)
    (workspace : Ports.Workspace) (w read w' : W)
    → transport.do_request
        (record {
          method = post;
          url = base_url ++ codes "/internal/workspaces";
          payload = create_payload name;
        })
        w
      ≡ ok response read
    → create_workspace transport base_url name w ≡ ok workspace w'
    → (response.status ≡ 201)
      × (transport.decode_workspace response.body ≡ some workspace)
      × (read ≡ w')
unfolding create_workspace configured send check_status decoded_reply
client_created transport base_url name response workspace w read w' sent h = ground (arith)

abbrev pub seen : Disk.Workspace → Ports.Workspace
seen workspace = record { id = workspace.id; path = workspace.path }

module _ {W Conn : Type 0} (disk : Disk W) (transport : Transport W Conn)
    (base_url work_root name : Text) (encode : Body → Text)
    -- The body of a reply is read back, and the request of CreateWorkspace is served by the handler.
    (decodes : (workspace : Disk.Workspace)
      → transport.decode_workspace (encode (created workspace)) ≡ some (seen workspace))
    (served : (w : W)
      → let out = create_workspace_handler disk work_root (template name) w in
        transport.do_request
          (record {
            method = post;
            url = base_url ++ codes "/internal/workspaces";
            payload = create_payload name;
          })
          w
        ≡ ok (record { status = out.0.status; body = encode out.0.body }) out.1) where
  -- Where the requests of the client are served by CreateWorkspace of the runner and the body of its
  -- reply is read back, a CreateWorkspace of the client that returns a workspace means that the
  -- runner made a directory, wrote README.md and .gitignore there with their contents, in one of the
  -- two orders, and then ran the five git commands that begin the repository on main, set the
  -- author's name and address, and commit everything, each without an error, and the workspace has
  -- the path of this directory and the last part of the path as its id.
  pub created_over_wire :
      (w w' : W) (workspace : Ports.Workspace)
      → create_workspace transport base_url name w ≡ ok workspace w'
      → (path : Text) × (u : W) × (v : W) × (made : Disk.Workspace) × (disk.mkdir_temp work_root
            (codes "ws-")
            u
          ≡ (Results.ok path, v))
        × IsFilled disk path v made w'
        × (workspace ≡ seen made)
  created_over_wire w w' workspace h =
      let (status, decoded, same) =
        client_created transport base_url name _ workspace w _ w' (served w) h in
      let (made, out, body) =
        handler_created disk work_root name w w'
          (create_workspace_handler disk work_root (template name) w).0
          (ap (λ v. ((create_workspace_handler disk work_root (template name) w).0, v)) same)
          status in
      let equal : workspace ≡ seen made =
        inject
          (sym decoded ∙ (ap (λ b. transport.decode_workspace (encode b)) body ∙ decodes made)) in
      let (path, u, v, directory, filled) = created-IsFilled disk work_root w w' made out in
      (path, u, v, made, directory, filled, equal)
    where
      inject : {a b : Ports.Workspace} → some a ≡ some b → a ≡ b
      inject h = ground arith
