-- ===== src/Model.antt =====
-- internal/domain/model.go and the files beside it that declare data: the catalogue, the desired
-- state of a composition and what was observed of it.
mod Errors
mod Catalog
mod Preview
mod Evidence
mod Compositions
mod Routes
mod Platforms
mod Requests
unfoldable pub use Errors.*
pub use Catalog.*
pub use Preview.*
pub use Evidence.*
unfoldable pub use Compositions.*
unfoldable pub use Routes.*
pub use Platforms.*
pub use Requests.*
