-- ===== src/Api/Service/Access/Owner.antt =====
-- Who gets a session of practiceService (practice_service.go), and in which state, whatever the
-- store does.
use git_gym.Prelude.{
  ℕ, ◌<◌, ◌≡◌, ◌≢◌, refl, inl, inr, false, none, some, arith, Option-cases, ap, sym, ◌∙◌,
}
use mathlib.Core.Path.{subst}
use git_gym.Api.Domain.{PracticeSession, Status, expired, orphaned, is_ended}
use git_gym.Api.Errors.{ok}
use git_gym.Api.Ports.{Store}
use git_gym.Api.Service.{
  PracticeService, ensure_session_available, expire_session, check_expiry, available_in,
}
use git_gym.Api.Service.Access.{practice_session_by_id, current_practice_session}

module _ {W Conn : Type 0} (s : PracticeService W Conn) where
  -- `session` is handed out in world `w`: it has not ended, and a reading of the clock lies before
  -- its end. Nothing but the clock is called.
  abbrev pub IsAvailable : PracticeSession → W → W → Type 0
  IsAvailable session w w' =
      (is_ended session.status ≡ false) × ((s.now w).0 < session.expires_at) × (w' ≡ (s.now w).1)

  expire_session_fails :
      (session got : PracticeSession) (w w' : W) → expire_session s session w ≢ ok got w'
  unfolding expire_session
  expire_session_fails session got w w' h = ground arith

  check_expiry_ok :
      (session got : PracticeSession) (w w' : W)
      → check_expiry s session w ≡ ok got w'
      → (got ≡ session) × ((s.now w).0 < session.expires_at) × (w' ≡ (s.now w).1)
  unfolding check_expiry
  check_expiry_ok session got w w' h =
      ground (arith, expire_session_fails session got (s.now w).1 w')

  available_in_ok :
      (status : Status) (session got : PracticeSession) (w w' : W)
      → available_in s status session w ≡ ok got w'
      → (is_ended status ≡ false) × (check_expiry s session w ≡ ok got w')
  unfolding available_in
  available_in_ok expired session got w w' h = cc
  available_in_ok orphaned session got w w' h = cc
  available_in_ok _ session got w w' h = (refl, h)

  pub ensure_session_available_ok :
      (session got : PracticeSession) (w w' : W)
      → ensure_session_available s session w ≡ ok got w'
      → (got ≡ session) × IsAvailable got w w'
  unfolding ensure_session_available
  ensure_session_available_ok session got w w' h =
      let (open_status, checked) = available_in_ok session.status session got w w' h in
      let (same, before, after) = check_expiry_ok session got w w' checked in
      (same, subst (λ x. IsAvailable x w w') (sym same) (open_status, before, after))

  by_id_unconfigured :
      (user_id session_id : ℕ) (session : PracticeSession) (w w' : W)
      → s.store ≡ none
      → practice_session_by_id s user_id session_id w ≢ ok session w'
  unfolding practice_session_by_id
  by_id_unconfigured user_id session_id session w w' e h = ground arith

  by_id_path :
      (store : Store W) (user_id session_id : ℕ) (session : PracticeSession) (w w' : W)
      → s.store ≡ some store
      → practice_session_by_id s user_id session_id w ≡ ok session w'
      → (found : PracticeSession) × (read : W) × (store.practice_session_by_id session_id w
          ≡ ok found read)
        × (user_id ≢ 0)
        × (session_id ≢ 0)
        × (found.user_id ≡ user_id)
        × (ensure_session_available s found read ≡ ok session w')
  unfolding practice_session_by_id
  by_id_path store user_id session_id session w w' e h = ground arith

  -- Where PracticeSessionByID returns a session, it is what the store has under the id, its user is
  -- the one who asks, no id is 0, and the session has not ended and is not past its end by the
  -- clock.
  pub practice_session_by_id_ok :
      (user_id session_id : ℕ) (session : PracticeSession) (w w' : W)
      → practice_session_by_id s user_id session_id w ≡ ok session w'
      → (store : Store W) × (read : W) × (s.store ≡ some store)
        × (store.practice_session_by_id session_id w ≡ ok session read)
        × (user_id ≢ 0)
        × (session_id ≢ 0)
        × (session.user_id ≡ user_id)
        × IsAvailable session read w'
  practice_session_by_id_ok user_id session_id session w w' h = elim (Option-cases s.store) [
    | inl e ↦ absurd (by_id_unconfigured user_id session_id session w w' e h)
    | inr (store, e) ↦
        let (found, read, stored, user, id, mine, checked) =
          by_id_path store user_id session_id session w w' e h in
        let (same, available) = ensure_session_available_ok found session read w' checked in
        (
          store,
          read,
          e,
          stored ∙ ap (λ x. ok x read) (sym same),
          user,
          id,
          ap (λ x. x.user_id) same ∙ mine,
          available,
        )
  ]

  current_path :
      (store : Store W) (user_id : ℕ) (session : PracticeSession) (w w' : W)
      → s.store ≡ some store
      → current_practice_session s user_id w ≡ ok session w'
      → (found : PracticeSession) × (read : W) × (store.current_practice_session user_id w
          ≡ ok found read)
        × (user_id ≢ 0)
        × (found.user_id ≡ user_id)
        × (ensure_session_available s found read ≡ ok session w')
  unfolding current_practice_session
  current_path store user_id session w w' e h = ground arith

  current_unconfigured :
      (user_id : ℕ) (session : PracticeSession) (w w' : W)
      → s.store ≡ none
      → current_practice_session s user_id w ≢ ok session w'
  unfolding current_practice_session
  current_unconfigured user_id session w w' e h = ground arith

  -- Where CurrentPracticeSession returns a session, it is what the store has as the current session
  -- of the user, its user is the one who asks, and the session has not ended and is not past its end
  -- by the clock.
  pub current_practice_session_ok :
      (user_id : ℕ) (session : PracticeSession) (w w' : W)
      → current_practice_session s user_id w ≡ ok session w'
      → (store : Store W) × (read : W) × (s.store ≡ some store)
        × (store.current_practice_session user_id w ≡ ok session read)
        × (user_id ≢ 0)
        × (session.user_id ≡ user_id)
        × IsAvailable session read w'
  current_practice_session_ok user_id session w w' h = elim (Option-cases s.store) [
    | inl e ↦ absurd (current_unconfigured user_id session w w' e h)
    | inr (store, e) ↦
        let (found, read, stored, user, mine, checked) =
          current_path store user_id session w w' e h in
        let (same, available) = ensure_session_available_ok found session read w' checked in
        (
          store,
          read,
          e,
          stored ∙ ap (λ x. ok x read) (sym same),
          user,
          ap (λ x. x.user_id) same ∙ mine,
          available,
        )
  ]
