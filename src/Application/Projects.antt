-- ===== src/Application/Projects.antt =====
-- internal/application/catalog.go: `RegisterProject`, and the checks of a baseline as one.
use envy.Common.{not, ◌&&◌, List, [], ◌∷◌, Map, leb, if◌then◌else◌, len}
use envy.Model.{Project, Baseline, Component}
use envy.Domain.Catalog.{valid_catalog_id}
use envy.Domain.Recipe.{is_blank}
use envy.Application.Backend.{Backend, Action, ◌>>◌, pure, query, require, reject, store_project}

module _ (b : Backend) where
  -- `RegisterProject`
  unfoldable pub register_project : Project → Action Project
  register_project q = do
    require (valid_catalog_id q.id && not (is_blank q.name) && leb (len q.name) 128)
        "project requires a DNS-label ID and a name of 1–128 characters"
    if b.has_catalog then pure tt else reject "unavailable" "catalog registration is unavailable"
    query (store_project q) (λ h. b.register_project h q)

-- `BaselineChecks`: the checks that run one after another.
abbrev pub BaselineChecks : Type 0
BaselineChecks = List (Baseline → Map Component → Action (Unit {0}))

unfoldable pub run_checks : BaselineChecks → Baseline → Map Component → Action (Unit {0})
run_checks [] base profiles = pure tt
run_checks (first ∷ rest) base profiles = do first base profiles; run_checks rest base profiles
