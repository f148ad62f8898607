-- ===== src/Application/Prepare/Closure.antt =====
-- internal/application/service.go: the dependencies of what a composition selects are selected too,
-- and have no cycle.
use envy.Common.{◌≡◌, refl, String, true, none, List, [], ◌∷◌, Map, has_key, all, All, arith}
use envy.Model.{Component, Platform}
use envy.Domain.Workload.Graph.{
  Visit, cycle, out_of_fuel, visited, search_cycles, validate_execution_graph,
}
use envy.Domain.Workload.Graph.Acyclic.{Depends, search_cycles-acyclic}
use envy.Application.Prepare.{unselected, missing_dependency, declared_by}

-- Every dependency that a selected component declares is selected too.
abbrev pub IsClosed : Map Component → Map Component → Type 0
IsClosed profiles m = All (λ e. all (λ d. has_key d profiles) (declared_by e.1) ≡ true) m

pub record IsAcyclic (components : Map Component) : Type 0 where
  pub at : (name : String) → ¬ Depends components name name

unselected-all :
    (profiles : Map Component) (component : String) (ds : List String)
    → unselected profiles component ds ≡ none
    → all (λ d. has_key d profiles) ds ≡ true
unfolding unselected
unselected-all profiles component [] e = refl
unselected-all profiles component (d ∷ ds) e =
    ground (arith, unselected-all profiles component ds (ground arith))

pub missing_dependency-IsClosed :
    (profiles m : Map Component) → missing_dependency profiles m ≡ none → IsClosed profiles m
unfolding missing_dependency
missing_dependency-IsClosed profiles [] e = tt
missing_dependency-IsClosed profiles ((component, profile) ∷ rest) e = (
  unselected-all profiles component (declared_by profile) (ground arith),
  missing_dependency-IsClosed profiles rest (ground arith),
)

pub validate_execution_graph-IsAcyclic :
    (p : Platform) (components : Map Component)
    → validate_execution_graph p components ≡ none
    → IsAcyclic components
unfolding validate_execution_graph
validate_execution_graph-IsAcyclic p components e = searched (search_cycles components) refl
  where
    searched : (v : Visit) → search_cycles components ≡ v → IsAcyclic components
    searched cycle h = ground (arith, h)
    searched out_of_fuel h = ground (arith, h)
    searched (visited m) h = record { at = λ name. search_cycles-acyclic components m name h }
