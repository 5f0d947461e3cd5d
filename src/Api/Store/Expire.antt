-- ===== src/Api/Store/Expire.antt =====
-- ExpirePracticeSessions of InMemoryPracticeSessionStore (practice_service.go).
use git_gym.Prelude.{
  ℕ, ◌≤◌, ◌≡◌, refl, ap, sym, ◌∙◌, ◌⊎◌, inl, inr, Bool-cases, Option, none, some, true, false, List,
  [], ◌∷◌, map, arith, keep, if◌then◌else◌,
}
use git_gym.Prelude.Map.{lookup, values, UniqueKeys}
use mathlib.Core.Path.{subst}
use git_gym.Api.Domain.{PracticeSession, active, expired}
use git_gym.Api.Errors.{ok, state}
use git_gym.Api.Store.State.{MemoryStore}
use git_gym.Api.Store.Sessions.{is_stale, end_session, expire_loop, expire_practice_sessions}

-- What the sweep makes of one session.
abbrev pub swept : ℕ → ℕ → PracticeSession → PracticeSession
swept before ended_at session =
    if is_stale before session then end_session ended_at session else session

abbrev pub map_option : {A B : Type 0} → (A → B) → Option A → Option B
map_option f none = none
map_option f (some a) = some (f a)

-- The loop changes the entries in place.
pub lookup-expire_loop :
    (before ended_at k : ℕ) (m : List (ℕ × PracticeSession))
    → lookup k (expire_loop before ended_at m).0 ≡ map_option (swept before ended_at) (lookup k m)
unfolding expire_loop lookup
lookup-expire_loop before ended_at k [] = refl
lookup-expire_loop before ended_at k ((j, session) ∷ m) =
    ground (arith, lookup-expire_loop before ended_at k m)

expire_loop-ended :
    (before ended_at : ℕ) (m : List (ℕ × PracticeSession))
    → (expire_loop before ended_at m).1
      ≡ map (end_session ended_at) (keep (is_stale before) (values m))
unfolding expire_loop
expire_loop-ended before ended_at [] = refl
expire_loop-ended before ended_at ((j, session) ∷ m) =
    ground (arith, expire_loop-ended before ended_at m)

pub expire_loop-UniqueKeys :
    (before ended_at : ℕ) (m : List (ℕ × PracticeSession))
    → UniqueKeys m
    → UniqueKeys (expire_loop before ended_at m).0
unfolding expire_loop
expire_loop-UniqueKeys before ended_at [] u = tt
expire_loop-UniqueKeys before ended_at ((j, session) ∷ m) u =
    ground
      (arith, lookup-expire_loop before ended_at j m, expire_loop-UniqueKeys before ended_at m u.1)

-- A session is stale exactly when it is active and its time is up.
pub is_stale_iff :
    (before : ℕ) (session : PracticeSession)
    → is_stale before session ≡ true
    → (session.status ≡ active) × (session.expires_at ≤ before)
unfolding is_stale
is_stale_iff before session h = ground arith

swept_not_stale :
    (before ended_at : ℕ) (session : PracticeSession)
    → is_stale before (swept before ended_at session) ≡ false
unfolding is_stale end_session
swept_not_stale before ended_at session = ground arith

expire_loop-clean :
    (before ended_at : ℕ) (m : List (ℕ × PracticeSession))
    → keep (is_stale before) (values (expire_loop before ended_at m).0) ≡ []
unfolding expire_loop
expire_loop-clean before ended_at [] = refl
expire_loop-clean before ended_at ((j, session) ∷ m) =
    ground (arith, expire_loop-clean before ended_at m, swept_not_stale before ended_at session)

expire_loop-quiet :
    (before ended_at : ℕ) (m : List (ℕ × PracticeSession))
    → keep (is_stale before) (values m) ≡ []
    → (expire_loop before ended_at m).0 ≡ m
unfolding expire_loop
expire_loop-quiet before ended_at [] h = refl
expire_loop-quiet before ended_at ((j, session) ∷ m) h =
    ground (arith, expire_loop-quiet before ended_at m)

-- The session is active and its time is up.
abbrev pub IsStale : ℕ → PracticeSession → Type 0
IsStale before session = (session.status ≡ active) × (session.expires_at ≤ before)

-- The session with its end: an end that it has already stays, and nothing else of it changes.
abbrev pub EndedAt : ℕ → PracticeSession → PracticeSession → Type 0
EndedAt at old session =
    (session.status ≡ expired)
    × (session.last_activity_at ≡ at)
    × (((old.ended_at ≡ none) × (session.ended_at ≡ some at))
        ⊎ ((earlier : ℕ) × (old.ended_at ≡ some earlier) × (session.ended_at ≡ some earlier)))
    × (session ≡ record old {
      status = session.status;
      last_activity_at = session.last_activity_at;
      ended_at = session.ended_at;
    })

end_session-EndedAt :
    (at : ℕ) (session : PracticeSession) → EndedAt at session (end_session at session)
unfolding end_session
end_session-EndedAt at session = (refl, refl, first session.ended_at refl, refl)
  where
    first :
        (end : Option ℕ)
        → session.ended_at ≡ end
        → ((session.ended_at ≡ none) × ((end_session at session).ended_at ≡ some at))
          ⊎ ((earlier : ℕ) × (session.ended_at ≡ some earlier)
              × ((end_session at session).ended_at ≡ some earlier))
    first none e = inl (e, rw (end_session, e) refl)
    first (some earlier) e = inr (earlier, e, rw (end_session, e) refl)

-- What the sweep leaves of a session.
abbrev pub Swept : ℕ → ℕ → PracticeSession → PracticeSession → Type 0
Swept before at old session =
    (IsStale before old × EndedAt at old session) ⊎ ((IsStale before old → ⊥) × (session ≡ old))

fresh_not_stale :
    (before : ℕ) (session : PracticeSession)
    → is_stale before session ≡ false
    → IsStale before session
    → ⊥
unfolding is_stale
fresh_not_stale before session fresh h = ground arith

swept-Swept :
    (before at : ℕ) (session : PracticeSession) → Swept before at session (swept before at session)
swept-Swept before at session = elim (Bool-cases (is_stale before session)) [
  | inl stale ↦ rw stale (inl (is_stale_iff before session stale, end_session-EndedAt at session))
  | inr fresh ↦ rw fresh (inr ((λ h. fresh_not_stale before session fresh h), refl))
]

-- The sessions that the sweep returns: one for each stale session, in their order, with its end.
abbrev pub EndedOf : ℕ → ℕ → List PracticeSession → List PracticeSession → Type 0
EndedOf before at [] ended = ended ≡ []
EndedOf before at (old ∷ rest) ended =
    (IsStale before old
      × (session : PracticeSession) × (more : List PracticeSession) × (ended ≡ session ∷ more)
      × EndedAt at old session
      × EndedOf before at rest more)
    ⊎ ((IsStale before old → ⊥) × EndedOf before at rest ended)

expire_loop-EndedOf :
    (before at : ℕ) (m : List (ℕ × PracticeSession))
    → EndedOf before at (values m) (expire_loop before at m).1
unfolding expire_loop
expire_loop-EndedOf before at [] = refl
expire_loop-EndedOf before at ((k, session) ∷ m) = elim (Bool-cases (is_stale before session)) [
  | inl stale ↦ rw stale (
      inl (
        is_stale_iff before session stale,
        end_session at session,
        (expire_loop before at m).1,
        refl,
        end_session-EndedAt at session,
        expire_loop-EndedOf before at m,
      ))
  | inr fresh ↦
      rw fresh
        (inr ((λ h. fresh_not_stale before session fresh h), expire_loop-EndedOf before at m))
]

-- What the sweep leaves under a key.
abbrev pub SweptAt : ℕ → ℕ → Option PracticeSession → Option PracticeSession → Type 0
SweptAt before at none found = found ≡ none
SweptAt before at (some old) found =
    (session : PracticeSession) × (found ≡ some session) × Swept before at old session

map_option-SweptAt :
    (before at : ℕ) (old : Option PracticeSession)
    → SweptAt before at old (map_option (swept before at) old)
map_option-SweptAt before at none = refl
map_option-SweptAt before at (some old) = (swept before at old, refl, swept-Swept before at old)

-- The sweep returns one session for each that is active and whose expiry is not after the given
-- time, in their order: expired, with the time of the sweep for its last activity, and for its end
-- where it had none. Under each key it leaves such a session so changed, and any other as it was,
-- and nothing but the sessions changes.
pub expire_lem :
    (before ended_at : ℕ) (s : MemoryStore)
    → (t : MemoryStore) × (ended : List PracticeSession) × (expire_practice_sessions before ended_at
          s
        ≡ ok ended t)
      × EndedOf before ended_at (values s.sessions) ended
      × ((k : ℕ) → SweptAt before ended_at (lookup k s.sessions) (lookup k t.sessions))
      × (t ≡ record s { sessions = t.sessions })
unfolding expire_practice_sessions
expire_lem before ended_at s = (
  record s { sessions = (expire_loop before ended_at s.sessions).0 },
  (expire_loop before ended_at s.sessions).1,
  refl,
  expire_loop-EndedOf before ended_at s.sessions,
  (λ k.
      subst (SweptAt before ended_at (lookup k s.sessions))
        (sym (lookup-expire_loop before ended_at k s.sessions))
        (map_option-SweptAt before ended_at (lookup k s.sessions))),
  refl,
)

-- A second sweep up to the same time finds nothing and changes nothing, whatever end it would write.
pub expire_twice :
    (before ended_at later : ℕ) (s : MemoryStore)
    → let t = state (expire_practice_sessions before ended_at s) in
      expire_practice_sessions before later t ≡ ok [] t
unfolding expire_practice_sessions
expire_twice before ended_at later s =
    let m = (expire_loop before ended_at s.sessions).0 in
    let clean = expire_loop-clean before ended_at s.sessions in
    cc (
      expire_loop-ended before later m ∙ ap (map (end_session later)) clean,
      expire_loop-quiet before later m clean,
    )
