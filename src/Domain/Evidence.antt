-- ===== src/Domain/Evidence.antt =====
-- internal/domain/evidence_freshness.go and verification_identity.go: whether the evidence of a
-- check still covers what is observed.
pub mod Current
use envy.Common.{
  ℕ, ◌-◌, String, Bool, true, false, not, ◌&&◌, ◌||◌, Option, none, some, List, [], ◌∷◌, Map,
  lookup, ltb, ◌==◌, if◌then◌else◌, str_eq, ◌<>◌,
}
use envy.Model.{
  Composition, ComponentOverride, ComponentObservation, VerificationEvidence, VerificationWorkload,
  BaselineObservation, BaselineComponentObservation, VerificationContract, ResolvedPlan, Platform,
  Time,
}

pub data Freshness : Type 0 where
  unknown_coverage stale unavailable failed current : Freshness

-- The texts that stand for them.
abbrev pub freshness_text : Freshness → String
freshness_text unknown_coverage = "unknown_coverage"
freshness_text stale = "stale"
freshness_text unavailable = "unavailable"
freshness_text failed = "failed"
freshness_text current = "current"

-- `BaselineObservationMaxAge`
abbrev pub max_age : ℕ
max_age = 120_000_000_000

abbrev pub is_known : BaselineComponentObservation → Bool
is_known c =
    not (str_eq c.service_uid "" || str_eq c.execution_state "unknown")
    && not (str_eq c.execution_state "observed" && not (str_eq c.image_identity "known"))

abbrev pub all_known : Map BaselineComponentObservation → Bool
all_known [] = true
all_known ((_, c) ∷ cs) = is_known c && all_known cs

unfoldable pub baseline_coverage_known : BaselineObservation → Bool
baseline_coverage_known o = all_known o.components

unfoldable pub verification_contract_fingerprint : Platform → VerificationContract → String
verification_contract_fingerprint p contract = p.digest 32 (p.encode_contract contract)

-- The project and baseline that an observation is of, in its installation.
abbrev pub scope_of : BaselineObservation → String
scope_of o = o.installation <> ("/" <> (o.project <> ("/" <> o.baseline)))

-- The first of two findings; nothing is the empty text.
abbrev pub or_next : Option Freshness → Option Freshness → Option Freshness
or_next (some f) _ = some f
or_next none next = next

abbrev pub found_if : Bool → Freshness → Option Freshness → Option Freshness
found_if bad f next = if bad then some f else next

abbrev pub observed_freshness : VerificationEvidence → Time → BaselineObservation → Option Freshness
observed_freshness e now o =
    found_if
      (not (str_eq o.state "current") || o.observed_at == 0 || ltb max_age (now - o.observed_at))
      unavailable
      (found_if (str_eq e.baseline_scope "" || not (str_eq e.baseline_scope (scope_of o)))
        unknown_coverage
        (found_if (not (str_eq e.baseline_fingerprint o.fingerprint)) stale
          (found_if (not (baseline_coverage_known o)) unknown_coverage none)))

unfoldable pub baseline_evidence_freshness :
    Composition → VerificationEvidence → Time → Option Freshness
baseline_evidence_freshness c e now = elim c.baseline_observation [
  | none ↦ some unavailable
  | some o ↦ observed_freshness e now o
]

abbrev pub is_checked : VerificationWorkload → Bool
is_checked w = not (str_eq w.image "" || str_eq w.workload_id "")

-- What is observed of a component, against what was checked and what is selected.
abbrev pub is_same : ComponentOverride → VerificationWorkload → ComponentObservation → Bool
is_same selected checked observed =
    str_eq observed.image checked.image
    && str_eq observed.workload_id checked.workload_id
    && str_eq selected.image checked.image

-- Whether the workload of an override is the one that was checked.
unfoldable pub workload_freshness :
    ComponentOverride → Option VerificationWorkload → Option ComponentObservation → Option Freshness
workload_freshness selected none observed = some unknown_coverage
workload_freshness selected (some checked) none =
    found_if (not (is_checked checked)) unknown_coverage (some stale)
workload_freshness selected (some checked) (some observed) =
    found_if (not (is_checked checked)) unknown_coverage
      (found_if (not (is_same selected checked observed)) stale none)

unfoldable pub selected_workload_freshness :
    Map ComponentOverride → Composition → VerificationEvidence → Option Freshness
selected_workload_freshness [] c e = none
selected_workload_freshness ((name, selected) ∷ rest) c e =
    or_next (workload_freshness selected (lookup name e.workloads) (lookup name c.components))
      (selected_workload_freshness rest c e)

-- What is left once nothing was found.
abbrev pub outcome_of : VerificationEvidence → Freshness
outcome_of e = if str_eq e.outcome "passed" then current else failed

abbrev pub or_freshness : Option Freshness → Freshness → Freshness
or_freshness (some f) _ = f
or_freshness none next = next

module _ (p : Platform) where
  abbrev pub planned_freshness :
      Composition → VerificationEvidence → Option ResolvedPlan → Freshness
  planned_freshness c e none = unknown_coverage
  planned_freshness c e (some plan) =
      if not (
        str_eq e.contract_fingerprint
          (verification_contract_fingerprint p plan.baseline.verification))
      then stale
      else or_freshness (selected_workload_freshness c.overrides c e) (outcome_of e)

  unfoldable pub evidence_freshness_at : Composition → VerificationEvidence → Time → Freshness
  evidence_freshness_at c e now =
      if str_eq e.baseline_fingerprint "" || str_eq e.contract_fingerprint ""
      then unknown_coverage
      else if not (e.generation == c.generation)
      then stale
      else or_freshness (baseline_evidence_freshness c e now) (planned_freshness c e c.runtime.plan)
