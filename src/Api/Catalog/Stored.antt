-- ===== src/Api/Catalog/Stored.antt =====
-- storeBackedPracticeCatalog of http/router.go: the catalogue that is read from the database.
use git_gym.Prelude.{
  ℕ, ◌≡◌, refl, inl, inr, Bool, true, false, ◌||◌, List, [], ◌∷◌, ◌==◌, if◌then◌else◌, In, arith,
  Bool-cases,
}
use mathlib.Core.Path.{subst}
use git_gym.Api.Errors.{Out, ok, err, sentinel, practice_service_configuration}
use git_gym.Api.Monad.{M, pure, ◌>>=◌, ◌>>◌}
use git_gym.Api.Ports.{PracticeTemplate, PracticeScenario, PracticeCatalog}
use git_gym.Api.Catalog.{template_by_id, scenario_by_id}

pub record PracticeCatalogStore (W : Type 0) : Type 0 where
  pub list_practice_templates : M W (List PracticeTemplate)
  pub list_practice_scenarios : M W (List PracticeScenario)

abbrev has_template : List PracticeTemplate → ℕ → Bool
has_template [] id = false
has_template (template ∷ rest) id = template.id == id || has_template rest id

unfoldable pub validate_scenario_template_references :
    {W : Type 0} → List PracticeTemplate → List PracticeScenario → M W (Unit {0})
validate_scenario_template_references templates [] w = ok tt w
validate_scenario_template_references templates (scenario ∷ rest) w =
    if has_template templates scenario.template_id
    then validate_scenario_template_references templates rest w
    else err (sentinel practice_service_configuration) w

unfoldable pub list_scenarios : {W : Type 0} → PracticeCatalogStore W → M W (List PracticeScenario)
unfolding validate_scenario_template_references
list_scenarios store = do
  templates ← store.list_practice_templates
  scenarios ← store.list_practice_scenarios
  validate_scenario_template_references templates scenarios
  pure scenarios

unfoldable pub stored_practice_catalog : {W : Type 0} → PracticeCatalogStore W → PracticeCatalog W
unfolding list_scenarios template_by_id scenario_by_id
stored_practice_catalog store = record {
  list_templates = store.list_practice_templates;
  list_scenarios = list_scenarios store;
  template_by_id = λ id. store.list_practice_templates >>= λ templates. template_by_id templates id;
  scenario_by_id = λ id. store.list_practice_scenarios >>= λ scenarios. scenario_by_id scenarios id;
}

template_found :
    {W : Type 0} (templates : List PracticeTemplate) (id : ℕ) (w : W)
    → has_template templates id ≡ true
    → (template : PracticeTemplate) × (template_by_id templates id w ≡ ok template w)
      × (template.id ≡ id)
unfolding template_by_id
template_found [] id w h = absurd cc
template_found (template ∷ rest) id w h = elim (Bool-cases (template.id == id)) [
  | inl hit ↦ (template, rw hit refl, ground arith)
  | inr miss ↦
      let (other, found, same) = template_found rest id w (ground arith) in
      (other, rw miss found, same)
]

scenario_valid :
    {W : Type 0} (templates : List PracticeTemplate) (scenarios : List PracticeScenario)
    (scenario : PracticeScenario) (w w' : W) (done : Unit {0})
    → validate_scenario_template_references templates scenarios w ≡ ok done w'
    → In scenario scenarios
    → has_template templates scenario.template_id ≡ true
unfolding validate_scenario_template_references
scenario_valid templates [] scenario w w' done h there = absurd there
scenario_valid templates (first ∷ rest) scenario w w' done h there =
    ground (arith, scenario_valid templates rest scenario w w' done)

module _ {W : Type 0} (templates : List PracticeTemplate) (scenarios : List PracticeScenario)
    (scenario : PracticeScenario) (w' : W) (there : In scenario scenarios) where
  valid_of :
      (found : List PracticeScenario) (w : W) (out : Out W (Unit {0}))
      → validate_scenario_template_references templates found w ≡ out
      → elim out [ ok done u ↦ ok found u | err e u ↦ err e u ] ≡ ok scenarios w'
      → has_template templates scenario.template_id ≡ true
  valid_of found w (ok done u) v h =
      let same : scenarios ≡ found = ground arith in
      scenario_valid templates found scenario w u done v (subst (λ l. In scenario l) same there)
  valid_of found w (err e u) v h = absurd cc

  valid_from :
      (out : Out W (List PracticeScenario))
      → elim out [
        | ok found u ↦ elim (validate_scenario_template_references templates found u) [
          | ok done v ↦ ok found v
          | err e v ↦ err e v
        ]
        | err e u ↦ err e u
      ]
        ≡ ok scenarios w'
      → has_template templates scenario.template_id ≡ true
  valid_from (ok found u) h = valid_of found u _ refl h
  valid_from (err e u) h = absurd cc

-- Where the stored catalogue lists scenarios, the template of each of them is found by its id among
-- the templates that the database gave for the listing.
pub listed_scenario_has_template :
    {W : Type 0} (store : PracticeCatalogStore W) (scenarios : List PracticeScenario)
    (scenario : PracticeScenario) (w w' later : W)
    → (stored_practice_catalog store).list_scenarios w ≡ ok scenarios w'
    → In scenario scenarios
    → (templates : List PracticeTemplate) × (read : W) × (template : PracticeTemplate)
      × (store.list_practice_templates w ≡ ok templates read)
      × (template_by_id templates scenario.template_id later ≡ ok template later)
      × (template.id ≡ scenario.template_id)
unfolding stored_practice_catalog
listed_scenario_has_template {W} store scenarios scenario w w' later h there =
    go (store.list_practice_templates w) refl h
  where
    go :
        (out : Out W (List PracticeTemplate))
        → store.list_practice_templates w ≡ out
        → elim out [
          | ok templates u ↦ elim (store.list_practice_scenarios u) [
            | ok found v ↦ elim (validate_scenario_template_references templates found v) [
              | ok done v' ↦ ok found v'
              | err e v' ↦ err e v'
            ]
            | err e v ↦ err e v
          ]
          | err e u ↦ err e u
        ]
          ≡ ok scenarios w'
        → (templates : List PracticeTemplate) × (read : W) × (template : PracticeTemplate)
          × (store.list_practice_templates w ≡ ok templates read)
          × (template_by_id templates scenario.template_id later ≡ ok template later)
          × (template.id ≡ scenario.template_id)
    go (err e u) got k = absurd cc
    go (ok templates u) got k =
        let valid =
          valid_from templates scenarios scenario w' there (store.list_practice_scenarios u) k in
        let (template, found, same) = template_found templates scenario.template_id later valid in
        (templates, u, template, got, found, same)
