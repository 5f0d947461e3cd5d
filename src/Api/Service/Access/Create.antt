-- ===== src/Api/Service/Access/Create.antt =====
-- What CreatePracticeSession of practiceService (practice_service.go) does before it stores a session.
use git_gym.Prelude.{ℕ, ◌+◌, ◌≡◌, ◌⊎◌, refl, none, some, arith}
use git_gym.Api.Domain.{PracticeSession, active}
use git_gym.Api.Errors.{ok}
use git_gym.Api.Ports.{
  Store, RunnerClient, PracticeCatalog, PracticeScenario, PracticeTemplate, Workspace,
}
use git_gym.Api.Service.{PracticeService}
use git_gym.Api.Service.Access.{
  CreatePracticeSessionInput, create_practice_session, start_session, new_session,
}

-- A new session of the user for the scenario and its template, over the workspace, active from now on
-- and for two hours.
abbrev pub IsNewSession :
    ℕ → PracticeScenario → PracticeTemplate → Workspace → ℕ → PracticeSession → Type 0
IsNewSession user_id scenario template workspace now session =
    (session.user_id ≡ user_id)
    × (session.scenario_id ≡ scenario.id)
    × (session.template_id ≡ template.id)
    × (session.runner_ref ≡ workspace.id)
    × (session.workspace_path_ref ≡ workspace.path)
    × (session.status ≡ active)
    × (session.started_at ≡ now)
    × (session.last_activity_at ≡ now)
    × (session.ended_at ≡ none)
    × (session.expires_at ≡ now + 7_200_000_000_000)

module _ {W Conn : Type 0} (s : PracticeService W Conn) (store : Store W)
    (runner : RunnerClient W Conn) (catalog : PracticeCatalog W) (has_store : s.store ≡ some store)
    (has_runner : s.runner ≡ some runner) (has_catalog : s.catalog ≡ some catalog)
    (input : CreatePracticeSessionInput) where
  resolved :
      (session : PracticeSession) (w w' : W)
      → create_practice_session s input w ≡ ok session w'
      → (scenario : PracticeScenario) × (w₁ : W) × (template : PracticeTemplate) × (w₂ : W)
        × (catalog.scenario_by_id input.scenario_id w ≡ ok scenario w₁)
        × (catalog.template_by_id scenario.template_id w₁ ≡ ok template w₂)
        × ((input.template_id ≡ 0) ⊎ (input.template_id ≡ template.id))
        × (start_session s runner store input.user_id scenario template w₂ ≡ ok session w')
  unfolding create_practice_session
  resolved session w w' h = ground arith

  started :
      (scenario : PracticeScenario) (template : PracticeTemplate) (session : PracticeSession)
      (w w' : W)
      → start_session s runner store input.user_id scenario template w ≡ ok session w'
      → (workspace : Workspace) × (w₃ : W) × (runner.create_workspace template.key w
          ≡ ok workspace w₃)
        × (store.create_practice_session
              (new_session input.user_id scenario template workspace (s.now w₃).0)
              (s.now w₃).1
            ≡ ok session w')
  unfolding start_session
  started scenario template session w w' h = ground arith

  -- With a store, a runner and a catalogue configured, a created session is what the store answers
  -- for an active session of the user, the scenario that was asked for and its template, with the id
  -- and the path of a workspace that the runner has made from this template, which starts now, ends
  -- two hours later and has not ended; where the input names a template, it is that one.
  pub create_practice_session_ok :
      (session : PracticeSession) (w w' : W)
      → create_practice_session s input w ≡ ok session w'
      → (scenario : PracticeScenario) × (template : PracticeTemplate) × (workspace : Workspace)
        × (fresh : PracticeSession) × (w₁ : W) × (w₂ : W) × (w₃ : W) × (catalog.scenario_by_id
              input.scenario_id w
            ≡ ok scenario w₁)
        × (catalog.template_by_id scenario.template_id w₁ ≡ ok template w₂)
        × ((input.template_id ≡ 0) ⊎ (input.template_id ≡ template.id))
        × (runner.create_workspace template.key w₂ ≡ ok workspace w₃)
        × IsNewSession input.user_id scenario template workspace (s.now w₃).0 fresh
        × (store.create_practice_session fresh (s.now w₃).1 ≡ ok session w')
  unfolding new_session
  create_practice_session_ok session w w' h =
      let (scenario, w₁, template, w₂, found, resolves, fits, rest) = resolved session w w' h in
      let (workspace, w₃, made, stored) = started scenario template session w₂ w' rest in
      (
        scenario,
        template,
        workspace,
        new_session input.user_id scenario template workspace (s.now w₃).0,
        w₁,
        w₂,
        w₃,
        found,
        resolves,
        fits,
        made,
        (refl, refl, refl, refl, refl, refl, refl, refl, refl, refl),
        stored,
      )
