-- ===== src/Scenarios/Fixtures.antt =====
-- A platform, a store with providers that do as asked, and a composition of one overridden
-- component: what the examples run on.
use envy.Common.{pos, String, true, false, none, some, [], ◌∷◌}
use envy.Model.{
  WorkloadKind, Composition, Phase, Platform, Component, ComponentOverride, Baseline,
  BaselineRouting, VerificationContract, ResolvedPlan, RuntimeState, WorkloadRef,
  WorkloadObservation, ExecutionState, PubSubTopic, PubSubConsumer, RouteEntry, RouteDomain,
  RouteSnapshot, Time,
}
use envy.Domain.Catalog.{no_workload, namespace_for_id}
use envy.Reconciler.Effects.{Oracle, Config, Worker, ok}

abbrev pub platform : Platform
platform = record {
  digest = λ n s. s;
  encode_execution = λ c image. image;
  encode_contract = λ v. v.kind;
  hostname = λ url. some url;
  parse_duration = λ s. some 60_000_000_000;
  quote = λ s. s;
}

abbrev pub web : Component
web = record {
  execution = none;
  image_pull_secrets = [];
  profile = "";
  readiness_path = "";
  env = [];
  id = "web";
  project = "shop";
  protocol = "http";
  port = 8080;
  health_path = "/health";
  overridable = true;
  repository = "";
}

abbrev pub routing : BaselineRouting
routing = record {
  namespace = "shop";
  gateway = "public";
  gateway_namespace = "";
  gateway_section_name = "";
  entry_component = "web";
  preview_selector = none;
}

abbrev pub contract : VerificationContract
contract = record { kind = "envy-chain"; chain = []; path = "/"; expected_status = 200 }

abbrev pub orders_consumer : PubSubConsumer
orders_consumer = record {
  subscription = "projects/shop/subscriptions/orders";
  component = "web";
  subscription_env = "ORDERS_SUBSCRIPTION";
  filter = "";
}

abbrev pub orders : PubSubTopic
orders = record {
  topic = "projects/shop/topics/orders";
  publishers = "web" ∷ [];
  consumers = ("web", orders_consumer) ∷ [];
}

abbrev pub baseline : Baseline
baseline = record {
  pubsub = ("orders", orders) ∷ [];
  routing = routing;
  verification = contract;
  id = "staging";
  project = "shop";
  revision = "1";
  endpoint = "shop.test";
  components =
      ("web", record { service_host = "web.shop.svc.cluster.local"; port = 80; image = "web:1" })
      ∷ [];
}

abbrev pub plan : ResolvedPlan
plan = record {
  message_subscriptions = [];
  previews = [];
  baseline = baseline;
  components = ("web", web) ∷ [];
  component = web;
}

abbrev pub override : ComponentOverride
override = record { image = "web:2"; build_id = ""; source = none }

-- The workload of a component of a composition.
abbrev pub workload : String → String → WorkloadRef
workload id component = record no_workload {
  namespace = namespace_for_id id;
  service = component;
  ownership_token = "token";
}

abbrev pub runtime : RuntimeState
runtime = record {
  executions = [];
  messaging_observed = [];
  plan = some plan;
  deletion_reason = "";
  provision_started_at = 1;
  ownership_token = "token";
  workloads = ("web", workload "c1" "web") ∷ [];
  published_overrides = some (("web", override) ∷ []);
  retiring_workloads = [];
  retirement_drain_until = none;
  workload = no_workload;
  routing_active = true;
  routes_removed = false;
  drain_until = some 5;
  attempts = 0;
  next_attempt_at = 0;
}

-- A composition whose routes are published.
abbrev pub published : Composition
published = record {
  pending_verification = none;
  baseline_observation = none;
  pr_preview_id = "";
  message_isolation = false;
  message_subscriptions = [];
  preview_profiles = none;
  verification_level = "none";
  id = "c1";
  project = "shop";
  baseline = "staging";
  baseline_revision = "1";
  name = "checkout";
  overrides = ("web", override) ∷ [];
  generation = 2;
  observed_generation = 1;
  phase = Phase.provisioning;
  expires_at = 1_000_000;
  created_at = 1;
  updated_at = 1;
  components = [];
  endpoints = ("public", record { url = "c1.test"; ready = false }) ∷ [];
  conditions = [];
  latest_operation = record { id = "op"; kind = "create"; status = "pending"; error = none };
  last_error = none;
  deletion_requested = false;
  runtime = runtime;
}

abbrev pub deleting : Composition
deleting = record published { deletion_requested = true }

abbrev healthy : WorkloadObservation
healthy = record {
  state = ExecutionState.unreported;
  runs = 0;
  ready = true;
  failed = false;
  message = "";
  image = "";
  workload_id = "pod";
}

abbrev pub oracle : Oracle
oracle = record {
  context = λ h. ok tt;
  guard = λ h. ok tt;
  now = λ h. 1000;
  wall_clock = λ h c. 1000;
  random = λ h n. 0;
  save = λ h c. ok tt;
  active = λ h. ok (published ∷ []);
  active_domain = λ h project baseline. ok (published ∷ []);
  expire = λ h t. ok tt;
  ensure = λ h s. (workload s.composition_id s.component_id, none);
  observe = λ h r. (healthy, none);
  delete = λ h r. ok tt;
  absent = λ h r. ok true;
  delete_workload = λ h r. ok tt;
  workload_absent = λ h r. ok true;
  apply_routes = λ h s. ok (record { ready = true; message = "" });
  verify = λ h id host pods pl. (record { probes = []; composition = [] }, none);
  verify_absent = λ h host. ok tt;
  observe_baseline = none;
  messaging = none;
}

abbrev pub config : Config
config = record { interval = 10; provision_timeout = 60; drain_timeout = 10 }

abbrev pub start : Composition → Worker
start c = record { comp = c; history = []; route_cycle = none }

-- The routes of `published` alone.
abbrev pub shop_domain : RouteDomain
shop_domain = record {
  namespace = "shop";
  gateway = "public";
  service_host = "web.shop.svc.cluster.local";
  aggregate_name = "envy-mesh-web.shop.svc.cluster.local";
  gateway_namespace = "";
  gateway_section_name = "";
  port = 80;
}

abbrev pub shop_entry : String → RouteEntry
shop_entry host = record {
  message_isolation = false;
  domain = shop_domain;
  composition_id = "c1";
  host = host;
  destination_host = "web.envy-c1.svc.cluster.local";
  ownership_token = "token";
  selector_header = "";
  port = 8080;
}

abbrev pub shop_routes : RouteSnapshot
shop_routes = record {
  domains = shop_domain ∷ [];
  mesh_entries = shop_entry "" ∷ [];
  ingress_entries = shop_entry "c1.test" ∷ [];
  selector_entries = [];
  owned_compositions = ("c1", "token") ∷ [];
}

abbrev pub wall_clock : Composition → Time
wall_clock c = 1000

-- A Job.
abbrev pub report : Component
report = record web {
  execution = some (record {
    kind = WorkloadKind.job;
    dependencies = [];
    timeout = "5m";
    retry_limit = pos 0;
    schedule = "";
    max_runs = pos 0;
    concurrency_policy = "";
  });
}
