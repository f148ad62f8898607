-- ===== src/Domain/Catalog.antt =====
-- internal/domain/catalog.go: identifiers, profiles of a plan and the routes that a baseline asks
-- for.
pub mod Labels
use envy.Common.{
  ℕ, String, Bool, false, ◌&&◌, ◌||◌, none, some, List, [], ◌∷◌, Map, lookup, get_or, sorted_keys,
  is_empty, length, leb, if◌then◌else◌, str_eq, codes, ◌<>◌,
}
use envy.Model.{
  Component, Baseline, BaselineBinding, BaselineRouting, ResolvedPlan, RouteDomain, RuntimeState,
  WorkloadRef, ComponentOverride, Platform, WorkloadKind,
}

abbrev pub is_lower : ℕ → Bool
is_lower c = leb b'a' c && leb c b'z'

abbrev pub is_digit : ℕ → Bool
is_digit c = leb b'0' c && leb c b'9'

-- `[a-z0-9-]*[a-z0-9]`
abbrev pub id_tail : List ℕ → Bool
id_tail [] = false
id_tail (c ∷ rest) = elim rest [
  | [] ↦ is_lower c || is_digit c
  | _ ∷ _ ↦ (is_lower c || is_digit c || leb c b'-' && leb b'-' c) && id_tail rest
]

-- The regular expression `^[a-z][a-z0-9-]{0,61}[a-z0-9]$|^[a-z]$` on a text's codes.
unfoldable pub id_matches : List ℕ → Bool
id_matches [] = false
id_matches (c ∷ rest) = is_lower c && (is_empty rest || id_tail rest && leb (length rest) 62)

unfoldable pub valid_catalog_id : String → Bool
unfolding id_matches
valid_catalog_id id = id_matches (codes id)

abbrev pub max_overrides : ℕ
max_overrides = 3

unfoldable pub override_names : Map ComponentOverride → List String
override_names overrides = sorted_keys overrides

unfoldable pub gateway_ns : BaselineRouting → String
gateway_ns r = if str_eq r.gateway_namespace "" then r.namespace else r.gateway_namespace

unfoldable pub domain_gateway_ns : RouteDomain → String
domain_gateway_ns d = if str_eq d.gateway_namespace "" then d.namespace else d.gateway_namespace

unfoldable pub profiles : ResolvedPlan → Map Component
profiles p =
    if is_empty p.components
    then (if str_eq p.component.id "" then [] else (p.component.id, p.component) ∷ [])
    else p.components

-- `WorkloadRef{}`
abbrev pub no_workload : WorkloadRef
no_workload = record {
  kind = WorkloadKind.unset;
  namespace = "";
  namespace_uid = "";
  deployment = "";
  deployment_uid = "";
  service = "";
  service_uid = "";
  job = "";
  job_uid = "";
  cron_job = "";
  cron_job_uid = "";
  ownership_token = "";
  deployment_generation = 0;
  max_runs = 0;
  image = "";
  execution_fingerprint = "";
}

unfoldable pub workload_for : RuntimeState → String → WorkloadRef
workload_for r component = elim (lookup component r.workloads) [
  | some ref ↦ ref
  | none ↦
      if str_eq r.workload.deployment component || str_eq r.workload.service component
      then r.workload
      else no_workload
]

abbrev pub no_binding : BaselineBinding
no_binding = record { service_host = ""; port = 0; image = "" }

abbrev legacy_host : String
legacy_host = "service-b.envy-baseline.svc.cluster.local"

-- `strings.ReplaceAll(id, "_", "-")`
abbrev pub dashed : String → String
dashed String.[] = String.[]
dashed (String.◌∷◌ c s) =
    if str_eq (String.◌∷◌ c String.[]) "_" then "-" <> dashed s else String.◌∷◌ c (dashed s)

unfoldable pub namespace_for_id : String → String
namespace_for_id id = "envy-" <> dashed id

module _ (p : Platform) where
  unfoldable pub route_domain : Baseline → String → RouteDomain
  route_domain b component =
      let binding = get_or no_binding component b.components in
      let legacy =
        str_eq b.project "demo"
        && str_eq b.id "staging"
        && str_eq component "service-b"
        && str_eq binding.service_host legacy_host in
      record {
        namespace = b.routing.namespace;
        gateway = b.routing.gateway;
        service_host = binding.service_host;
        aggregate_name =
            if legacy then "envy-service-b" else "envy-mesh-" <> p.digest 10 binding.service_host;
        gateway_namespace = b.routing.gateway_namespace;
        gateway_section_name = b.routing.gateway_section_name;
        port = binding.port;
      }
