-- ===== src/Api/Auth/Request.antt =====
-- What auth.go reads of a request.
use git_gym.Prelude.{Bool, true, not, Option, none, some, [], ◌∷◌, ◌==◌, if◌then◌else◌}
use git_gym.Prelude.Text.{Text, codes, text_eq, trim, to_lower, is_empty}
use git_gym.Api.Auth.Ports.{Machine}

-- The cookies by their names, `none` for one that is not there.
pub record Request : Type 0 where
  pub state_cookie : Option Text
  pub session_cookie : Option Text
  pub query_state : Text
  pub query_code : Text
  pub is_tls : Bool
  pub forwarded_proto : Text
  pub forwarded_for : Text
  pub remote_addr : Text
  pub url_hostname : Text
  pub host : Text
  pub user_agent : Text

-- `strings.Split(s, ",")[0]`.
unfoldable pub before_comma : Text → Text
before_comma [] = []
before_comma (c ∷ s) = if c == b',' then [] else c ∷ before_comma s

abbrev pub or_else : Option Text → Text → Text
or_else none t = t
or_else (some s) t = s

-- `strings.EqualFold(host, "localhost")` folds more than ASCII: U+017F is an s.
unfoldable pub fold : Text → Text
fold [] = []
fold (c ∷ s) = (if c == 0x17f then b's' else c) ∷ fold s

module _ {W : Type 0} (machine : Machine W) where
  unfoldable pub client_ip : Request → Text
  unfolding before_comma trim
  client_ip r =
      if is_empty (trim (before_comma r.forwarded_for))
      then or_else (machine.split_host (trim r.remote_addr)) (trim r.remote_addr)
      else trim (before_comma r.forwarded_for)

  unfoldable pub request_host : Request → Text
  unfolding trim
  request_host r =
      if is_empty (trim r.url_hostname)
      then or_else (machine.split_host (trim r.host)) (trim r.host)
      else trim r.url_hostname

  unfoldable pub is_local_request_host : Text → Bool
  unfolding fold to_lower text_eq trim
  is_local_request_host host =
      if text_eq (to_lower (fold host)) (codes "localhost")
      then true
      else machine.is_loopback_ip (trim host)

  unfoldable pub should_use_secure_cookies : Request → Bool
  unfolding before_comma trim to_lower text_eq request_host is_local_request_host
  should_use_secure_cookies r =
      if r.is_tls
      then true
      else (if text_eq (to_lower (trim (before_comma r.forwarded_proto))) (codes "https")
          then true
          else not (is_local_request_host (request_host r)))
