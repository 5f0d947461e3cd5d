-- ===== src/Api/Catalog.antt =====
-- The static catalogue of services/api/internal/service/practice_catalog.go.
pub mod Stored
use git_gym.Prelude.{ℕ, List, [], ◌∷◌, ◌==◌, if◌then◌else◌}
use git_gym.Prelude.Text.{codes}
use git_gym.Api.Errors.{ok, err, sentinel, unknown_practice_template, unknown_practice_scenario}
use git_gym.Api.Monad.{M}
use git_gym.Api.Ports.{PracticeTemplate, PracticeScenario, PracticeCatalog}

unfoldable pub template_by_id : {W : Type 0} → List PracticeTemplate → ℕ → M W PracticeTemplate
template_by_id [] id w = err (sentinel unknown_practice_template) w
template_by_id (template ∷ rest) id w =
    if template.id == id then ok template w else template_by_id rest id w

unfoldable pub scenario_by_id : {W : Type 0} → List PracticeScenario → ℕ → M W PracticeScenario
scenario_by_id [] id w = err (sentinel unknown_practice_scenario) w
scenario_by_id (scenario ∷ rest) id w =
    if scenario.id == id then ok scenario w else scenario_by_id rest id w

unfoldable pub new_static_practice_catalog :
    (W : Type 0) → List PracticeTemplate → List PracticeScenario → PracticeCatalog W
unfolding template_by_id scenario_by_id
new_static_practice_catalog W templates scenarios = record {
  list_templates = λ w. ok templates w;
  list_scenarios = λ w. ok scenarios w;
  template_by_id = template_by_id templates;
  scenario_by_id = scenario_by_id scenarios;
}

unfoldable pub new_fallback_practice_catalog : (W : Type 0) → PracticeCatalog W
unfolding new_static_practice_catalog
new_fallback_practice_catalog W =
    new_static_practice_catalog W
      (record { id = 1; key = codes "standard"; name = codes "Standard" } ∷ [])
      (record {
        id = 1;
        key = codes "sandbox-standard";
        name = codes "Standard Sandbox";
        template_id = 1;
      }
        ∷ [])
