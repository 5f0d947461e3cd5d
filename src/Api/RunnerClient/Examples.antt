-- ===== src/Api/RunnerClient/Examples.antt =====
-- The theorems on the runner client at concrete calls.
use git_gym.Prelude.{
  some, none, ap, true, ◌==◌, ◌-◌, if◌then◌else◌, ℕ, ◌+◌, ◌≡◌, ◌++◌, refl, Option, [], ◌∷◌, arith,
  inl,
}
use git_gym.Prelude.Text.{Text, codes, pos}
use git_gym.Api.Errors.{ok}
use git_gym.Prelude.Result as Results
use git_gym.Api.Ports as Ports
use git_gym.Api.RunnerClient.Created.{seen, created_over_wire}
use git_gym.Runner.Disk as Disk
use git_gym.Runner.Disk.{Disk}
use git_gym.Runner.Disk.Create.{IsFilled}
use git_gym.Runner.Disk.Handlers.{
  Body, created, resetting, repo_state, error_text, completed, command_error, template,
  create_workspace_handler,
}
use git_gym.Api.RunnerClient as Client
use git_gym.Runner.Workspace.Delete as Handler
use git_gym.Api.RunnerClient.{
  Transport, Request, Payload, delete_payload, no_payload, create_payload,
}
use git_gym.Api.RunnerClient.Wire.{handled, deleted_over_wire}
use git_gym.Runner.Cleanup.{CleanupRequest}
use git_gym.Runner.Workspace.{PathEnv, found, resolve_workspace_path}

abbrev unix : PathEnv
unix = record {
  abs = λ p. found p;
  join = λ root id. root ++ b'/' ∷ id;
  rel = λ root p. found (codes "ws-a");
  separator = b'/';
  stat = λ p. found true;
}

abbrev count : CleanupRequest → ℕ → Option Text × ℕ
count req w = (none, w + 1)

-- A runner with the workspace ws-a that is asked to delete it after 90.5 seconds.
abbrev transport : Transport ℕ ℕ
transport = record {
  do_request = λ r w.
      ok
        (record {
          status =
              (handled count unix (codes "/w") (codes "ws-a") (codes "expired") 90_500_000_000
                w).0.status;
          body = [];
        })
        (handled count unix (codes "/w") (codes "ws-a") (codes "expired") 90_500_000_000 w).1;
  decode_workspace = λ t. none;
  decode_repo_state = λ t. none;
  dial = λ url w. inl (0, w);
  path_escape = λ t. t;
  parse_url = λ t. none;
  print_url = λ u. [];
}

deleted_over_wire_example :
    (path : Text) × (req : CleanupRequest) × (resolve_workspace_path unix
        (codes "/w")
        (codes "ws-a")
      ≡ found path)
    × (req.workspace_id ≡ codes "ws-a")
    × (req.path ≡ path)
    × (req.delete_after ≡ pos 90_000_000_000)
    × (count req 0 ≡ (none, 1))
unfolding Client.delete_workspace Handler.delete_workspace
deleted_over_wire_example =
    deleted_over_wire count transport (codes "http://r") unix (codes "/w") (codes "ws-a")
      (codes "expired") 90_500_000_000 (λ w. ([], refl)) 0 1 (omega arith) refl

-- A body that has the id with every code raised by one, a zero, and the path.
abbrev coded : Text → Text → Text
coded [] path = 0 ∷ path
coded (c ∷ id) path = (c + 1) ∷ coded id path

abbrev with_code : ℕ → Option (Text × Text) → Option (Text × Text)
with_code c none = none
with_code c (some (id, path)) = some ((c - 1) ∷ id, path)

abbrev uncoded : Text → Option (Text × Text)
uncoded [] = none
uncoded (c ∷ s) = if c == 0 then some ([], s) else with_code c (uncoded s)

abbrev workspace_of : Option (Text × Text) → Option Ports.Workspace
workspace_of none = none
workspace_of (some (id, path)) = some (record { id = id; path = path })

uncoded-coded : (id path : Text) → uncoded (coded id path) ≡ some (id, path)
uncoded-coded [] path = refl
uncoded-coded (c ∷ id) path = ground (arith, uncoded-coded id path)

abbrev encode : Body → Text
encode (created workspace) = coded workspace.id workspace.path
encode (resetting id) = []
encode (repo_state snapshot) = []
encode (error_text e) = []
encode (completed id command result) = []
encode (command_error e) = []

-- A disk that counts its calls.
abbrev disk : Disk ℕ
disk = record {
  mkdir_all = λ path n. (Results.ok tt, n + 1);
  mkdir_temp = λ root prefix n. (Results.ok (root ++ b'/' ∷ prefix), n + 1);
  remove_all = λ path n. (Results.ok tt, n + 100);
  write_file = λ path contents n. (Results.ok tt, n + 1);
  read_dir = λ path n. (Results.ok [], n);
  git = λ args path n. (Results.ok [], n + 1);
  now = λ n. (0, n);
  join = λ a b. a ++ b'/' ∷ b;
  base = λ p. p;
  template_first = λ n. (true, n);
}

abbrev creating : Transport ℕ ℕ
creating = record transport {
  do_request = λ r w.
      let out = create_workspace_handler disk (codes "/w") (template (codes "standard")) w in
      ok (record { status = out.0.status; body = encode out.0.body }) out.1;
  decode_workspace = λ t. workspace_of (uncoded t);
}

created_over_wire_example :
    (path : Text) × (u v : ℕ) × (made : Disk.Workspace) × (disk.mkdir_temp
        (codes "/w")
        (codes "ws-")
        u
      ≡ (Results.ok path, v))
    × IsFilled disk path v made 9
    × (◌≡◌ {A = Ports.Workspace}
        (record { id = codes "/w/ws-"; path = codes "/w/ws-" })
        (seen made))
unfolding Client.create_workspace create_workspace_handler Disk.create_workspace
created_over_wire_example =
    created_over_wire disk creating (codes "http://r") (codes "/w") (codes "standard") encode
      (λ workspace. ap workspace_of (uncoded-coded workspace.id workspace.path)) (λ w. refl) 0 9
      (record { id = codes "/w/ws-"; path = codes "/w/ws-" }) refl
