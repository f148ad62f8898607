-- ===== src/Reconciler/Intent.antt =====
-- internal/domain/model.go: the part of a composition that users decide, and its endpoints.
use envy.Common.{ℕ, ◌≡◌, refl, Bool, false, Option, String, Map, [], ◌∷◌}
use envy.Model.{Composition, ComponentOverride, Endpoint, ResolvedPlan, Time}
use envy.Reconciler.Failure.{set_endpoints}

-- The desired state.
pub record Intent : Type 0 where
  pub id : String
  pub project : String
  pub baseline : String
  pub baseline_revision : String
  pub name : String
  pub overrides : Map ComponentOverride
  pub generation : ℕ
  pub expires_at : Time
  pub created_at : Time
  pub message_isolation : Bool
  pub deletion_requested : Bool
  pub plan : Option ResolvedPlan
  pub ownership_token : String

unfoldable pub intent : Composition → Intent
intent c = record {
  id = c.id;
  project = c.project;
  baseline = c.baseline;
  baseline_revision = c.baseline_revision;
  name = c.name;
  overrides = c.overrides;
  generation = c.generation;
  expires_at = c.expires_at;
  created_at = c.created_at;
  message_isolation = c.message_isolation;
  deletion_requested = c.deletion_requested;
  plan = c.runtime.plan;
  ownership_token = c.runtime.ownership_token;
}

unfoldable pub held : Composition → Intent × Map Endpoint
unfolding intent
held c = (intent c, c.endpoints)

-- No endpoint is ready.
abbrev pub NoneReady : Map Endpoint → Type 0
NoneReady [] = Unit
NoneReady ((_, e) ∷ m) = (e.ready ≡ false) × NoneReady m

pub set_endpoints-NoneReady : (m : Map Endpoint) → NoneReady (set_endpoints false m)
set_endpoints-NoneReady [] = tt
set_endpoints-NoneReady ((k, e) ∷ m) = (refl, set_endpoints-NoneReady m)
