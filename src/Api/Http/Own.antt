-- ===== src/Api/Http/Own.antt =====
-- Which session GET /practice-sessions/current (handlers/practice_sessions.go) shows.
use git_gym.Prelude.{◌≡◌, ◌≢◌, refl, ap, ◌∙◌, Option, none, some, arith, inl, inr, Bool-cases, ◌==◌}
use git_gym.Api.Domain.{PracticeSession}
use git_gym.Api.Errors.{Error, Out, ok, err}
use git_gym.Api.Service.{PracticeService}
use git_gym.Api.Service.Access.{current_practice_session}
use git_gym.Api.Service.Access.Owner.{IsAvailable, current_practice_session_ok}
use git_gym.Api.Http.Reply.{
  Reply, reply, session_body, failure, new_practice_session_response,
  status_for_practice_session_lookup_error,
}
use git_gym.Api.Http.Session.{AuthenticatedSession}
use git_gym.Api.Http.Handlers.{get_current_practice_session}

refused : (e : Error) → status_for_practice_session_lookup_error e ≢ 200
unfolding status_for_practice_session_lookup_error
refused e h = ground arith

module _ {W Conn : Type 0} (s : PracticeService W Conn) where
  shown :
      (out : Out W PracticeSession) (r : Reply) (w' : W)
      → elim out [
        | ok current read ↦ reply 200 (session_body (new_practice_session_response current)) read
        | err e read ↦ reply (status_for_practice_session_lookup_error e) (failure e) read
      ]
        ≡ (r, w')
      → r.status ≡ 200
      → (practice : PracticeSession) × (out ≡ ok practice w')
        × (r.body ≡ session_body (new_practice_session_response practice))
  shown (ok current read) r w' h status = (current, ground arith, ground arith)
  shown (err e read) r w' h status =
      absurd (refused e (ap (λ (p : Reply × W). p.0.status) h ∙ status))

  -- Where the handler for the current session replies with status 200, the request carried an
  -- authenticated session, and the body is a practice session of that user, which has not ended and
  -- is not past its end by the clock.
  pub current_reply_own :
      (session : Option AuthenticatedSession) (w w' : W) (r : Reply)
      → get_current_practice_session s session w ≡ (r, w')
      → r.status ≡ 200
      → (auth : AuthenticatedSession) × (practice : PracticeSession) × (read : W) × (session
          ≡ some auth)
        × (r.body ≡ session_body (new_practice_session_response practice))
        × (practice.user_id ≡ auth.user_id)
        × IsAvailable s practice read w'
  unfolding get_current_practice_session
  current_reply_own none w w' r h status = ground arith
  current_reply_own (some auth) w w' r h status = elim (Bool-cases (auth.user_id == 0)) [
    | inl zero ↦ ground arith
    | inr there ↦
        let (practice, got, body) =
          shown (current_practice_session s auth.user_id w) r w' (ground arith) status in
        let (_, read, _, _, _, mine, available) =
          current_practice_session_ok s auth.user_id practice w w' got in
        (auth, practice, read, refl, body, mine, available)
  ]
