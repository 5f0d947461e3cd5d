-- ===== src/Api/Service/Listing.antt =====
-- The methods of practiceService (practice_service.go) that list the catalogue.
use git_gym.Prelude.{List, []}
use git_gym.Api.Monad.{M, pure, on_outcome, ◌>>=◌, require}
use git_gym.Api.Ports.{PracticeTemplate, PracticeScenario}
use git_gym.Api.Service.{PracticeService, not_configured}

module _ {W Conn : Type 0} (s : PracticeService W Conn) where
  unfoldable pub list_templates_with_error : M W (List PracticeTemplate)
  list_templates_with_error = do catalog ← require s.catalog not_configured; catalog.list_templates

  unfoldable pub list_scenarios_with_error : M W (List PracticeScenario)
  list_scenarios_with_error = do catalog ← require s.catalog not_configured; catalog.list_scenarios

  -- An error gives an empty slice.
  unfoldable pub list_templates : M W (List PracticeTemplate)
  unfolding list_templates_with_error
  list_templates = on_outcome list_templates_with_error (λ e. pure []) pure

  unfoldable pub list_scenarios : M W (List PracticeScenario)
  unfolding list_scenarios_with_error
  list_scenarios = on_outcome list_scenarios_with_error (λ e. pure []) pure
