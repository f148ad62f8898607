-- ===== src/Application/Create.antt =====
-- internal/application/service.go: `Create`.
pub mod Fresh
pub mod Accepted
use envy.Common.{
  ℕ, ◌+◌, ℤ, pos, String, Bool, true, false, not, ◌&&◌, ◌||◌, Option, none, some, List, [], ◌∷◌,
  Map, get_or, has_key, lookup, insert, is_empty, is_some, all, leb, ltb, len, codes, if◌then◌else◌,
  str_eq, ◌<>◌,
}
use envy.Model.{
  Url, Composition, Component, ComponentOverride, ComponentObservation, ExecutionState, Baseline,
  BaselineBinding, PreviewSnapshot, PreviewProvenance, CreateRequest, Endpoint, Condition, Phase,
  MessageSubscription, Platform, Time, Err, domain_error, plain, Error, validation, RuntimeState,
  ResolvedPlan,
}
use envy.Domain.Catalog.{override_names, no_workload}
use envy.Domain.Workload.{has_endpoint}
use envy.Domain.Workload.Graph.{validate_execution_graph}
use envy.Domain.Messaging.{Checked, passed, refused, validate_messaging}
use envy.Domain.Messaging.Resolve.{resolve_messaging}
use envy.Application.Requests.{
  normalize_create, validate_pull_secrets, valid_preview_image, no_override, or_empty,
}
use envy.Application.Builds.{resolve_overrides}
use envy.Application.Previews.{resolve_preview}
use envy.Application.Backend.{
  Backend, Config, Formats, Action, Outcome, returned, Query, ◌>>=◌, ◌>>◌, pure, fail, query,
  invalid, reject, require, check, coded_error, read_baseline, read_component, validate_provider,
  replay_create, create_composition, read_clock, draw_id,
}
use envy.Application.Prepare.{
  no_component, Preparation, prepare_create, preview_base_url, of_checked,
}

module _ (p : Platform) (f : Formats) (b : Backend) (cfg : Config) where
  -- The public endpoint of a composition, in a subdomain of its own.
  abbrev pub endpoint_for : String → Url → Map Endpoint
  endpoint_for id u =
      (
        "public",
        record {
          url = f.url_text (record u { host = "cmp-" <> (id <> ("." <> u.host)); path = "" });
          ready = false;
        },
      )
      ∷ []

  unfoldable pub first_endpoints : String → Bool → Action (Map Endpoint)
  first_endpoints id false = pure []
  first_endpoints id true = do u ← preview_base_url p f b cfg; pure (endpoint_for id u)

  abbrev observation : String → String → String → ComponentObservation
  observation source status image = record {
    source = source;
    status = status;
    image = image;
    workload_id = "";
    execution_id = "";
    execution_state = ExecutionState.unreported;
  }

  abbrev inherited : Map BaselineBinding → Map ComponentObservation → Map ComponentObservation
  inherited [] out = out
  inherited ((name, binding) ∷ rest) out =
      inherited rest (insert name (observation "baseline" "inherited" binding.image) out)

  abbrev overridden : Map ComponentOverride → Map ComponentObservation → Map ComponentObservation
  overridden [] out = out
  overridden ((name, o) ∷ rest) out =
      overridden rest (insert name (observation "override" "pending" o.image) out)

  abbrev waiting : String → String → Condition
  waiting kind message = record { kind = kind; status = false; message = message }

  abbrev unneeded : String → Condition
  unneeded kind = record { kind = kind; status = true; message = "no endpoint routes required" }

  abbrev first_conditions : Bool → List Condition
  first_conditions true =
      waiting "WorkloadsReady" "waiting for reconciliation"
      ∷ waiting "RoutesConfigured" "waiting for workload readiness"
      ∷ waiting "RouteVerified" "waiting for ingress verification"
      ∷ []
  first_conditions false =
      waiting "WorkloadsReady" "waiting for reconciliation"
      ∷ unneeded "RoutesConfigured"
      ∷ unneeded "RouteVerified"
      ∷ []

  -- A topic without a slash, which `validate_messaging` refuses, would panic.
  abbrev pub of_subscriptions :
      Option (List MessageSubscription) → Action (List MessageSubscription)
  of_subscriptions none = fail (plain "runtime error: index out of range")
  of_subscriptions (some ss) = pure ss

  unfoldable pub first_subscriptions :
      Bool → Baseline → String → Time → Action (List MessageSubscription)
  first_subscriptions false base id expiry = pure []
  first_subscriptions true base id expiry =
      of_subscriptions (resolve_messaging p cfg.installation id expiry base)

  abbrev first_runtime : Baseline → Preparation → List MessageSubscription → String → RuntimeState
  first_runtime base prepared subscriptions owner = record {
    executions = [];
    messaging_observed = [];
    plan = some (record {
      message_subscriptions = subscriptions;
      previews = prepared.previews;
      baseline = base;
      components = prepared.profiles;
      component = no_component;
    });
    deletion_reason = "";
    provision_started_at = 0;
    ownership_token = owner;
    workloads = [];
    published_overrides = some [];
    retiring_workloads = [];
    retirement_drain_until = none;
    workload = no_workload;
    routing_active = false;
    routes_removed = false;
    drain_until = none;
    attempts = 0;
    next_attempt_at = 0;
  }

  -- The composition that is stored.
  unfoldable pub first_composition :
      CreateRequest
      → ℕ
      → Baseline
      → Preparation
      → String
      → String
      → String
      → Map Endpoint
      → Time
      → List MessageSubscription
      → Composition
  first_composition req ttl base prepared id owner op endpoints now subscriptions = record {
    pending_verification = none;
    baseline_observation = none;
    pr_preview_id = "";
    message_isolation = req.message_isolation;
    message_subscriptions = subscriptions;
    preview_profiles = some prepared.provenance;
    verification_level = "none";
    id = id;
    project = req.project;
    baseline = req.baseline;
    baseline_revision = base.revision;
    name = req.name;
    overrides = or_empty req.overrides;
    generation = 1;
    observed_generation = 0;
    phase = Phase.created;
    expires_at = now + ttl;
    created_at = now;
    updated_at = now;
    components = overridden (or_empty req.overrides) (inherited base.components []);
    endpoints = endpoints;
    conditions = first_conditions prepared.has_endpoint;
    latest_operation = record { id = op; kind = "create"; status = "pending"; error = none };
    last_error = none;
    deletion_requested = false;
    runtime = first_runtime base prepared subscriptions owner;
  }

  -- What follows the lookup of a replay.
  unfoldable pub create_fresh : CreateRequest → ℕ → String → String → Action Composition
  create_fresh req ttl key digest = do
    (base, prepared) ← prepare_create p f b cfg req
    id ← draw_id b
    owner ← draw_id b
    op ← draw_id b
    endpoints ← first_endpoints id prepared.has_endpoint
    now ← query read_clock (λ h. returned (b.now h))
    subscriptions ← first_subscriptions req.message_isolation base id (now + ttl)
    let c = first_composition req ttl base prepared id owner op endpoints now subscriptions
    query (create_composition c key digest cfg.max_compositions)
        (λ h. b.create h c key digest cfg.max_compositions)

  abbrev pub replayed :
      CreateRequest → ℕ → String → String → Option Composition → Action Composition
  replayed req ttl key digest (some previous) = pure previous
  replayed req ttl key digest none = create_fresh req ttl key digest

  unfoldable pub replay_or_create : CreateRequest → ℕ → String → String → Action Composition
  replay_or_create req ttl key digest =
      if b.can_replay && not (str_eq key "")
      then query (replay_create key digest) (λ h. b.replay h key digest)
        >>= replayed req ttl key digest
      else create_fresh req ttl key digest

  -- A key of at most 128 printable ASCII characters.
  abbrev pub check_key : String → Action (Unit {0})
  check_key key =
      require (leb (len key) 128) "idempotency key must be at most 128 printable ASCII characters"
      >> require (all (λ c. leb 32 c && leb c 126) (codes key))
          "idempotency key must contain printable ASCII characters"

  unfoldable pub create : CreateRequest → String → Action Composition
  create req key = do
    check_key key
    (normal, ttl) ← of_checked p f b cfg (normalize_create p f cfg req)
    overrides ← resolve_overrides b normal.project (or_empty normal.overrides)
    let resolved = record normal { overrides = some overrides }
    replay_or_create resolved ttl key (p.digest 32 (f.encode_request resolved))
