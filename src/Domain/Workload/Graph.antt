-- ===== src/Domain/Workload/Graph.antt =====
-- internal/domain/workload.go: `ValidateExecutionGraph`, a depth-first search for cycles.
pub mod Fuel
pub mod Order
pub mod Acyclic
use envy.Common.{
  ℕ, zero, suc, String, Bool, Option, none, some, List, [], ◌∷◌, any, Map, lookup, has_key,
  if◌then◌else◌, str_eq, keys, ◌<>◌, length, select, not,
}
use envy.Model.{Component, Platform, Err, domain_error, wrapped, plain, validation}
use envy.Domain.Workload.{validate_execution}

-- The dependencies that a component declares, none without an execution.
abbrev pub declared : Map Component → String → List String
declared components id = elim (lookup id components) [
  | none ↦ []
  | some c ↦ elim c.execution [ none ↦ [] | some e ↦ e.dependencies ]
]

-- The first dependency that is no registered component.
unfoldable pub unregistered : Map Component → List String → Option Err
unregistered components [] = none
unregistered components (d ∷ ds) =
    if has_key d components
    then unregistered components ds
    else some (domain_error (validation ("execution dependency is not registered: " <> d)))

module _ (p : Platform) where
  invalid : String → Component → Option Err
  invalid id c = elim (validate_execution p c) [
    | none ↦ none
    | some e ↦ some (wrapped id (domain_error e))
  ]

  -- The first pass, in the order in which the components are ranged over.
  unfoldable pub validate_each : Map Component → Map Component → Option Err
  unfolding unregistered invalid
  validate_each components [] = none
  validate_each components ((id, c) ∷ rest) =
      elim (unregistered components (declared components id)) [
        | some e ↦ some e
        | none ↦ elim (invalid id c) [ some e ↦ some e | none ↦ validate_each components rest ]
      ]

-- `visiting` and `complete`.
pub record Marks : Type 0 where
  pub visiting : List String
  pub complete : List String

pub data Visit : Type 0 where
  cycle : Visit
  out_of_fuel : Visit
  visited : Marks → Visit

abbrev pub marked : String → List String → Bool
marked id ids = any (str_eq id) ids

-- The loop over the dependencies, `visit` being the call for one of them.
abbrev pub visit_all : (String → Marks → Visit) → List String → Marks → Visit
visit_all visit [] m = visited m
visit_all visit (d ∷ ds) m = elim (visit d m) [
  | visited m' ↦ visit_all visit ds m'
  | cycle ↦ cycle
  | out_of_fuel ↦ out_of_fuel
]

-- `delete(visiting, id); complete[id] = true`, once the dependencies are visited.
abbrev pub finish : String → Visit → Visit
finish id cycle = cycle
finish id out_of_fuel = out_of_fuel
finish id (visited m) =
    visited
      (record { visiting = select (λ j. not (str_eq id j)) m.visiting; complete = id ∷ m.complete })

module _ (components : Map Component) where
  unfoldable pub visit : ℕ → String → Marks → Visit
  visit zero id m = out_of_fuel
  visit (suc fuel) id m =
      let inner = record m { visiting = id ∷ m.visiting } in
      let below = visit_all (visit fuel) (declared components id) inner in
      if marked id m.visiting
      then cycle
      else if marked id m.complete
      then visited m
      else finish id below

  -- The second pass. The fuel is one more than the number of components.
  unfoldable pub search_cycles : Visit
  unfolding visit
  search_cycles =
      visit_all (visit (suc (length (keys components)))) (keys components)
        (record { visiting = []; complete = [] })

-- What the search says of the graph; that it never runs out of fuel is proved.
abbrev of_visit : Visit → Option Err
of_visit cycle = some (domain_error (validation "execution dependencies contain a cycle"))
of_visit out_of_fuel = some (plain "the search for cycles ran out of fuel")
of_visit (visited _) = none

unfoldable pub validate_execution_graph : Platform → Map Component → Option Err
unfolding validate_each search_cycles
validate_execution_graph p components = elim (validate_each p components components) [
  | some e ↦ some e
  | none ↦ of_visit (search_cycles components)
]
