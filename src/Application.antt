-- ===== src/Application.antt =====
-- internal/application: the service that validates requests and commits durable intent before any
-- provider is called.
pub mod Backend
pub mod Allows
pub mod Requests
pub mod Builds
pub mod Previews
pub mod Lookups
pub mod Resolutions
pub mod Components
pub mod Projects
pub mod Bindings
pub mod Baselines
pub mod Prepare
pub mod Create
pub mod Plan
pub mod Update
pub mod Reads
