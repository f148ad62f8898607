-- ===== src/Application/Baselines.antt =====
-- internal/application/catalog.go: `validateBaseline` and `RegisterBaseline`.
pub mod Bound
pub mod Checks
pub mod Registered
use envy.Common.{
  ℕ, ◌==◌, String, Bool, true, false, not, ◌&&◌, ◌||◌, Option, none, some, List, [], ◌∷◌, ◌++◌, Map,
  any, all, length, is_empty, leb, ltb, lookup, get_or, has_key, insert, sorted_keys, if◌then◌else◌,
  str_eq, codes, len, starts_with, ◌<>◌,
}
use envy.Model.{
  Url, Baseline, BaselineBinding, BaselineRouting, Component, PreviewSelector, VerificationContract,
  Platform,
}
use envy.Domain.Catalog.{id_matches, valid_catalog_id, no_binding}
use envy.Domain.Workload.{has_endpoint}
use envy.Domain.Workload.Graph.{validate_execution_graph}
use envy.Domain.Messaging.{validate_messaging}
use envy.Application.Requests.{contains_any}
use envy.Application.Components.{valid_path}
use envy.Application.Bindings.{
  cut_suffix, valid_selector, is_endpoint_free, label_or_empty, routes_nothing, probes_nothing,
  first_name, has_image, is_service, Bindings, default_contract,
}
use envy.Application.Prepare.{no_component, check_graph, of_checked}
use envy.Application.Backend.{
  Backend, Config, Formats, Action, Outcome, Query, ◌>>=◌, ◌>>◌, pure, query, require, invalid,
  reject, fail, read_component, validate_provider, validate_catalog, store_baseline,
}

module _ (p : Platform) (f : Formats) (b : Backend) (cfg : Config) where
  -- The test of an endpoint under the domain of previews, before its label is looked at.
  abbrev pub under_domain : Url → Url → Bool
  under_domain u base =
      (str_eq u.scheme "http" || str_eq u.scheme "https")
      && str_eq u.scheme base.scheme
      && str_eq u.port base.port
      && not u.has_user
      && (str_eq u.path "" || str_eq u.path "/")
      && str_eq u.raw_query ""
      && str_eq u.fragment ""
      && not (starts_with u.hostname "cmp-")

  -- The part of the host before the domain of previews.
  abbrev pub host_label : Url → Url → Option (List ℕ)
  host_label u base = cut_suffix (codes ("." <> base.hostname)) (codes u.hostname)

  abbrev pub endpoint_message : String
  endpoint_message =
      "baseline endpoint must be an HTTP(S) hostname under the configured preview domain and port, outside the cmp- prefix"

  abbrev pub of_host : Baseline → Url → Option (List ℕ) → Action Baseline
  of_host base u none = invalid endpoint_message
  of_host base u (some label) = do
    require (id_matches label)
        "baseline hostname must be a single DNS label under the preview domain"
    pure (record base { endpoint = f.url_text (record u { path = "" }) })

  abbrev pub of_endpoint : Baseline → Option Url → Option Url → Action Baseline
  of_endpoint base (some u) (some domain) = do
    require (under_domain u domain) endpoint_message
    of_host base u (host_label u domain)
  of_endpoint base _ _ = invalid endpoint_message

  unfoldable pub check_endpoint : Baseline → Bool → Action Baseline
  check_endpoint base true = do
    require (routes_nothing base)
        "endpoint-free baselines cannot declare an endpoint or Gateway routing"
    pure base
  check_endpoint base false =
      of_endpoint base (f.parse_url base.endpoint) (f.parse_url cfg.preview_base_url)

  -- The three cases of the `switch` on the kind: the baseline and the names to go through.
  abbrev pub without_endpoint : Baseline → Action (Baseline × List String)
  without_endpoint base = do
    require (probes_nothing base.verification && is_empty base.verification.chain)
        "endpoint-free verification cannot include HTTP probe settings or a chain"
    pure (base, sorted_keys base.components)

  abbrev pub along_chain : Baseline → Action (Baseline × List String)
  along_chain base = do
    require
        (length base.verification.chain == length base.components
          && probes_nothing base.verification)
        "envy-chain verification must list every component and cannot include HTTP probe settings"
    require (str_eq base.routing.entry_component (first_name base.verification.chain))
        "entry_component must be the first verification hop"
    pure (base, base.verification.chain)

  abbrev pub over_http : Baseline → Action (Baseline × List String)
  over_http base = do
    require
        (is_empty base.verification.chain
          && valid_path f base.verification.path
          && leb 200 base.verification.expected_status
          && leb base.verification.expected_status 299)
        "http verification requires an absolute path, a 2xx expected_status and no chain"
    require (has_key base.routing.entry_component base.components)
        "entry_component must be bound in the baseline"
    pure (base, sorted_keys base.components)

  unfoldable pub check_contract : Baseline → Action (Baseline × List String)
  check_contract base =
      if str_eq base.verification.kind "none"
      then without_endpoint base
      else if str_eq base.verification.kind "envy-chain"
      then along_chain base
      else if str_eq base.verification.kind "http"
      then over_http (record base { verification = default_contract base.verification })
      else invalid "verification kind must be envy-chain or http"

  unfoldable pub load_profile : String → String → Map Component → Bool → Action (Map Component)
  load_profile project id profiles true = pure profiles
  load_profile project id profiles false = do
    c ← query (read_component project id) (λ h. b.component h project id)
    pure (insert id c profiles)

  -- A binding of a component, which has an endpoint or not.
  unfoldable pub check_binding :
      Baseline → String → BaselineBinding → Bindings → Bool → Action Bindings
  check_binding base id binding acc false = do
    require
        (is_endpoint_free base
          && str_eq binding.service_host ""
          && binding.port == 0
          && has_image binding)
        "endpoint-free components require endpoint-free verification and an image-only binding"
    pure (record acc { seen = id ∷ acc.seen })
  check_binding base id binding acc true = do
    require
        (is_service base.routing.namespace binding
          && not (any (str_eq binding.service_host) acc.hosts))
        "bindings require distinct Service FQDNs in the routing namespace and valid ports"
    require (has_image binding) "binding image is required"
    pure (record acc { seen = id ∷ acc.seen; hosts = binding.service_host ∷ acc.hosts })

  unfoldable pub bind_component : Baseline → String → Bindings → Action Bindings
  bind_component base id acc = do
    require (has_key id base.components && not (any (str_eq id) acc.seen))
        "verification chain must list each bound component exactly once"
    profiles ← load_profile base.project id acc.profiles (has_key id acc.profiles)
    check_binding base id (get_or no_binding id base.components)
        (record acc { profiles = profiles }) (has_endpoint (get_or no_component id profiles))

  unfoldable pub bind_each : Baseline → List String → Bindings → Action Bindings
  bind_each base [] acc = pure acc
  bind_each base (id ∷ ids) acc = do acc' ← bind_component base id acc; bind_each base ids acc'

  unfoldable pub check_pubsub : Baseline → Bool → Action (Unit {0})
  check_pubsub base true = pure tt
  check_pubsub base false = do
    require b.has_messaging "Pub/Sub provider is not enabled"
    query (validate_provider base) (λ h. b.validate h base)

  -- The labels and the routing of a baseline.
  unfoldable pub check_labels : Baseline → Action (Unit {0})
  check_labels base = do
    require
        (valid_catalog_id base.id
          && valid_catalog_id base.project
          && valid_catalog_id base.revision)
        "baseline, project and revision IDs must be DNS labels"
    require
        (label_or_empty base.routing.gateway_namespace
          && label_or_empty base.routing.gateway_section_name)
        "invalid gateway namespace or section name"
    require (valid_selector base.routing.preview_selector)
        "preview_selector.header must be an HTTP header name"
    require
        (valid_catalog_id base.routing.namespace
          && (is_endpoint_free base || valid_catalog_id base.routing.gateway))
        "routing requires an existing namespace and Gateway name"

  -- What follows once all components are bound.
  unfoldable pub check_bound : Baseline → Map Component → Action Baseline
  check_bound base profiles = do
    check_graph (validate_execution_graph p profiles)
    of_checked p f b cfg (validate_messaging base)
    check_pubsub base (is_empty base.pubsub)
    if b.has_validator then pure tt else reject "unavailable" "baseline validation is unavailable"
    query (validate_catalog base) (λ h. b.validate_catalog h base profiles)
    pure base

  -- `validateBaseline`
  unfoldable pub validate_baseline : Baseline → Map Component → Action Baseline
  validate_baseline base profiles = do
    check_labels base
    named ← check_endpoint base (is_endpoint_free base)
    require (leb 1 (length named.components) && leb (length named.components) 20)
        "baseline requires 1–20 components"
    (normal, names) ← check_contract named
    bound ← bind_each normal names (record { profiles = profiles; seen = []; hosts = [] })
    check_bound normal bound.profiles

  -- `RegisterBaseline`
  unfoldable pub register_baseline : Baseline → Action Baseline
  register_baseline base = do
    valid ← validate_baseline base []
    if b.has_catalog then pure tt else reject "unavailable" "catalog registration is unavailable"
    query (store_baseline valid) (λ h. b.register_baseline h valid)
