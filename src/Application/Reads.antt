-- ===== src/Application/Reads.antt =====
-- internal/application/service.go: `Get`, `List` and `Destroy`, which the store answers.
use envy.Common.{ℤ, String, List}
use envy.Model.{Composition}
use envy.Application.Requests.{validate_page}
use envy.Application.Backend.{
  Backend, Action, ◌>>◌, query, check, read_composition, list_compositions, destroy_composition,
}

module _ (b : Backend) where
  unfoldable pub get : String → Action Composition
  get id = query (read_composition id) (λ h. b.composition h id)

  unfoldable pub destroy_requested : String → Action Composition
  destroy_requested id = query (destroy_composition id) (λ h. b.destroy h id)

  unfoldable pub list_page : String → String → ℤ → Action (List Composition × String)
  list_page project after limit = do
    check (validate_page after limit)
    query (list_compositions project after limit) (λ h. b.list h project after limit)
