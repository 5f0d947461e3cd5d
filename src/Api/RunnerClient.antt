-- ===== src/Api/RunnerClient.antt =====
-- HTTPClient of services/api/internal/runner/client.go. Sending a request, decoding a body, the dial
-- of a websocket and the functions of net/url are parameters.
pub mod Wire
pub mod Created
mod Examples
use git_gym.Prelude.{
  ℕ, ◌⊎◌, inl, inr, ◌/◌, Bool, true, false, ◌&&◌, ◌||◌, not, Option, none, some, List, [], ◌∷◌,
  ◌++◌, ◌==◌, if◌then◌else◌, reverse,
}
use git_gym.Prelude.Text.{Text, codes, is_blank, is_empty, text_eq}
use git_gym.Api.Errors.{
  Error, Out, ok, err, sentinel, wrapped, foreign, client_not_configured, workspace_not_found,
}
use git_gym.Api.Monad.{M, pure, fail, refuse_if, on_outcome, ◌>>◌}
use git_gym.Api.Domain.{
  Status, active, expired, orphaned, pending, running, failed, succeeded, other,
}
use git_gym.Api.Ports.{Workspace, RepoState, RunnerClient}

-- The bodies that the client marshals.
pub data Payload : Type 0 where
  no_payload : Payload
  create_payload : Text → Payload
  delete_payload : Text → ℕ → Payload

pub data Method : Type 0 where
  get : Method
  post : Method
  delete : Method

pub record Request : Type 0 where
  pub method : Method
  pub url : Text
  pub payload : Payload

pub record Response : Type 0 where
  pub status : ℕ
  pub body : Text

pub record Url : Type 0 where
  pub scheme : Text
  pub host : Text
  pub path : Text
  pub raw_query : Text
  pub fragment : Text

-- `Do` for a request that can be built, the error of `NewRequest` for one that cannot; a dial that
-- fails may have a response.
pub record Transport (W Conn : Type 0) : Type 0 where
  pub do_request : Request → M W Response
  pub decode_workspace : Text → Option Workspace
  pub decode_repo_state : Text → Option RepoState
  pub dial : Text → W → (Conn × W) ⊎ (Option Response × W)
  pub path_escape : Text → Text
  pub parse_url : Text → Option Url
  pub print_url : Url → Text

-- `strings.TrimRight(s, "/")`.
drop_slashes : Text → Text
drop_slashes [] = []
drop_slashes (c ∷ s) = if c == b'/' then drop_slashes s else c ∷ s

unfoldable pub trim_right_slashes : Text → Text
unfolding drop_slashes
trim_right_slashes s = reverse (drop_slashes (reverse s))

-- Whether the status is one that `refused` lets through, and the error where it is not.
unfoldable pub check_status : {W : Type 0} → Bool → Bool → ℕ → M W (Unit {0})
check_status accepted knows_missing status =
    if accepted
    then pure tt
    else if knows_missing && status == 404
    then fail (sentinel workspace_not_found)
    else fail (foreign (codes "runner returned another status"))

decoded_reply : {W A : Type 0} → Option A → M W A
decoded_reply none = fail (wrapped (foreign (codes "decode runner response")))
decoded_reply (some a) = pure a

-- `int(deleteAfter / time.Second)`, of a duration that is not negative.
unfoldable pub delete_after_seconds : ℕ → ℕ
delete_after_seconds delete_after = delete_after / 1_000_000_000

module _ {W Conn : Type 0} (transport : Transport W Conn) (base_url : Text) where
  -- The base URL and the id are there, and the request gets a response.
  unfoldable pub configured : M W (Unit {0})
  configured = refuse_if (is_empty base_url) (sentinel client_not_configured)

  unfoldable pub configured_for : Text → M W (Unit {0})
  unfolding configured is_blank
  configured_for workspace_id =
      configured >> refuse_if (is_blank workspace_id) (foreign (codes "workspace ID is required"))

  unfoldable pub send : {A : Type 0} → Method → Text → Payload → (Response → M W A) → M W A
  send method path payload =
      on_outcome
        (transport.do_request
          (record { method = method; url = base_url ++ path; payload = payload }))
        (λ e. fail (wrapped e))

  unfoldable pub workspace_route : Text → Text → Text
  workspace_route workspace_id action =
      codes "/internal/workspaces/" ++ transport.path_escape workspace_id ++ action

  unfoldable pub create_workspace : Text → M W Workspace
  unfolding configured send check_status decoded_reply
  create_workspace template =
      configured
      >> send post (codes "/internal/workspaces") (create_payload template) λ response.
        check_status (response.status == 201) false response.status
        >> decoded_reply (transport.decode_workspace response.body)

  unfoldable pub get_repo_state : Text → M W RepoState
  unfolding configured_for send check_status decoded_reply workspace_route
  get_repo_state workspace_id =
      configured_for workspace_id
      >> send get (workspace_route workspace_id (codes "/repo-state")) no_payload λ response.
        check_status (response.status == 200) true response.status
        >> decoded_reply (transport.decode_repo_state response.body)

  unfoldable pub reset_workspace : Text → M W (Unit {0})
  unfolding configured_for send check_status workspace_route
  reset_workspace workspace_id =
      configured_for workspace_id
      >> send post (workspace_route workspace_id (codes "/reset")) no_payload
          λ response. check_status (response.status == 202) true response.status

  unfoldable pub delete_workspace : Text → Text → ℕ → M W (Unit {0})
  unfolding configured_for send check_status workspace_route delete_after_seconds
  delete_workspace workspace_id reason delete_after =
      configured_for workspace_id
      >> send delete (workspace_route workspace_id [])
          (delete_payload reason (delete_after_seconds delete_after))
          λ response.
            check_status (response.status == 202 || response.status == 204) true response.status

  -- The switch on the scheme of the base URL.
  unfoldable pub websocket_scheme : Text → Option Text
  unfolding text_eq
  websocket_scheme scheme =
      if text_eq scheme (codes "http")
      then some (codes "ws")
      else if text_eq scheme (codes "https")
      then some (codes "wss")
      else if text_eq scheme (codes "ws") || text_eq scheme (codes "wss")
      then some scheme
      else none

  with_scheme : Text → Url → Option Text → M W Text
  unfolding trim_right_slashes workspace_route
  with_scheme workspace_id url none = fail (foreign (codes "unsupported runner base URL scheme"))
  with_scheme workspace_id url (some scheme) = pure (
      transport.print_url (record {
        scheme = scheme;
        host = url.host;
        path = trim_right_slashes url.path ++ workspace_route workspace_id (codes "/terminal");
        raw_query = [];
        fragment = [];
      }))

  parsed_base : Text → Option Url → M W Text
  unfolding with_scheme websocket_scheme
  parsed_base workspace_id none = fail (wrapped (foreign (codes "parse runner base URL")))
  parsed_base workspace_id (some url) = with_scheme workspace_id url (websocket_scheme url.scheme)

  unfoldable pub terminal_url : Text → M W Text
  unfolding configured_for parsed_base
  terminal_url workspace_id =
      configured_for workspace_id >> parsed_base workspace_id (transport.parse_url base_url)

  dialled : (Conn × W) ⊎ (Option Response × W) → Out W Conn
  dialled (inl (conn, w)) = ok conn w
  dialled (inr (none, w)) = err (wrapped (foreign (codes "connect runner terminal"))) w
  dialled (inr (some response, w)) =
      if response.status == 404
      then err (sentinel workspace_not_found) w
      else err (wrapped (foreign (codes "connect runner terminal"))) w

  unfoldable pub connect_terminal : Text → M W Conn
  unfolding terminal_url dialled
  connect_terminal workspace_id =
      on_outcome (terminal_url workspace_id) (λ e. fail e) λ url w. dialled (transport.dial url w)

-- The text behind a reason.
unfoldable pub status_text : Status → Text
status_text active = codes "active"
status_text expired = codes "expired"
status_text orphaned = codes "orphaned"
status_text pending = codes "pending"
status_text running = codes "running"
status_text failed = codes "failed"
status_text succeeded = codes "succeeded"
status_text (other text) = text

unfoldable pub new_client : {W Conn : Type 0} → Transport W Conn → Text → RunnerClient W Conn
unfolding create_workspace get_repo_state reset_workspace connect_terminal delete_workspace
    trim_right_slashes status_text
new_client transport base_url = record {
  create_workspace = create_workspace transport (trim_right_slashes base_url);
  reset_workspace = reset_workspace transport (trim_right_slashes base_url);
  get_repo_state = get_repo_state transport (trim_right_slashes base_url);
  connect_terminal = connect_terminal transport (trim_right_slashes base_url);
  delete_workspace = λ id reason delay.
      delete_workspace transport (trim_right_slashes base_url) id (status_text reason) delay;
}
