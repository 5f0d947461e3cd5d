-- ===== src/Api/Http/Jobs.antt =====
-- The operator's handlers of handlers/workspace_cleanup_jobs.go.
use git_gym.Prelude.{ℕ, Option, none, some, [], ◌∷◌, ◌==◌, ◌^◌, ltb, if◌then◌else◌}
use git_gym.Prelude.Text.{Text, codes, pos, decimal, parse_uint}
use git_gym.Api.Errors.{
  Error, is, workspace_cleanup_job_not_found, workspace_cleanup_job_not_exhausted,
}
use git_gym.Api.Service.{PracticeService}
use git_gym.Api.Service.Cleanup.{
  list_exhausted_workspace_cleanup_jobs, requeue_exhausted_workspace_cleanup_job,
}
use git_gym.Api.Http.Reply.{Handler, reply, answer, message, jobs_body, requeued}
use git_gym.Api.Http.Handlers.{with_id}

abbrev pub default_workspace_cleanup_operator_limit : ℕ
default_workspace_cleanup_operator_limit = 20

int_64 : Option ℕ → Option ℕ
int_64 none = none
int_64 (some n) = if n == 0 then none else if ltb n (2 ^ 63) then some n else none

-- `strconv.Atoi`, and none where it is not positive.
unfoldable pub positive_int : Text → Option ℕ
unfolding int_64 decimal
positive_int [] = none
positive_int (c ∷ []) = int_64 (decimal 0 (c ∷ []))
positive_int (c ∷ d ∷ s) =
    if c == b'+' then int_64 (decimal 0 (d ∷ s)) else int_64 (decimal 0 (c ∷ d ∷ s))

unfoldable pub requested_limit : Text → Option ℕ
unfolding positive_int
requested_limit [] = some default_workspace_cleanup_operator_limit
requested_limit (c ∷ s) = positive_int (c ∷ s)

requeue_status : Error → ℕ
requeue_status e =
    if is e workspace_cleanup_job_not_found
    then 404
    else if is e workspace_cleanup_job_not_exhausted
    then 409
    else 500

module _ {W Conn : Type 0} (s : PracticeService W Conn) where
  list_with : Option ℕ → Handler W
  list_with none = reply 400 (message (codes "invalid limit"))
  list_with (some limit) =
      answer (list_exhausted_workspace_cleanup_jobs s (pos limit)) (λ e. 500)
        (λ jobs. (200, jobs_body jobs))

  unfoldable pub list_exhausted_jobs : Text → Handler W
  unfolding list_with requested_limit
  list_exhausted_jobs raw_limit = list_with (requested_limit raw_limit)

  unfoldable pub requeue_exhausted_job : Text → Handler W
  unfolding requeue_status parse_uint
  requeue_exhausted_job raw_id =
      with_id (message (codes "invalid job id")) (parse_uint raw_id) λ job_id.
        answer (requeue_exhausted_workspace_cleanup_job s job_id) requeue_status
          (λ done. (202, requeued job_id))
