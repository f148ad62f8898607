-- ===== src/Domain/Evidence/Current.antt =====
-- internal/domain/evidence_freshness.go: evidence is called current just when it covers all that is
-- observed.
use envy.Common.{
  ◌-◌, ◌≤◌, ◌≡◌, ◌≢◌, ◌↔◌, refl, ap, String, true, false, not, ◌||◌, Option, none, some, [], ◌∷◌,
  Map, All, lookup, ◌==◌, if◌then◌else◌, str_eq, eq_iff, arith,
}
use envy.Model.{
  Composition, ComponentOverride, ComponentObservation, VerificationEvidence, VerificationWorkload,
  BaselineObservation, ResolvedPlan, Platform, Time,
}
use envy.Domain.Evidence.{
  Freshness, unknown_coverage, stale, unavailable, current, max_age, baseline_coverage_known,
  verification_contract_fingerprint, scope_of, observed_freshness, baseline_evidence_freshness,
  is_checked, workload_freshness, selected_workload_freshness, outcome_of, or_freshness,
  planned_freshness, evidence_freshness_at,
}

-- The workload of an override was checked, and runs now as it did then.
pub record IsCovered (c : Composition) (e : VerificationEvidence) (name : String)
    (selected : ComponentOverride) : Type 0 where
  pub checked : VerificationWorkload
  pub observed : ComponentObservation
  pub recorded : lookup name e.workloads ≡ some checked
  pub running : lookup name c.components ≡ some observed
  pub complete : is_checked checked ≡ true
  pub image : observed.image ≡ checked.image
  pub workload : observed.workload_id ≡ checked.workload_id
  pub desired : selected.image ≡ checked.image

abbrev pub AllCovered : Map ComponentOverride → Composition → VerificationEvidence → Type 0
AllCovered overrides c e = All (λ o. IsCovered c e o.0 o.1) overrides

workload_freshness-IsCovered :
    (c : Composition) (e : VerificationEvidence) (name : String) (selected : ComponentOverride)
    → workload_freshness selected (lookup name e.workloads) (lookup name c.components) ≡ none
    → IsCovered c e name selected
unfolding workload_freshness
workload_freshness-IsCovered c e name selected h =
    at (lookup name e.workloads) (lookup name c.components) refl refl h
  where
    at :
        (a : Option VerificationWorkload) (b : Option ComponentObservation)
        → lookup name e.workloads ≡ a
        → lookup name c.components ≡ b
        → workload_freshness selected a b ≡ none
        → IsCovered c e name selected
    at none b p q h' = cc
    at (some checked) none p q h' = ground arith
    at (some checked) (some observed) p q h' = record {
      checked = checked;
      observed = observed;
      recorded = p;
      running = q;
      complete = ground arith;
      image = (eq_iff observed.image checked.image).0 (ground arith);
      workload = (eq_iff observed.workload_id checked.workload_id).0 (ground arith);
      desired = (eq_iff selected.image checked.image).0 (ground arith);
    }

IsCovered-workload_freshness :
    (c : Composition) (e : VerificationEvidence) (name : String) (selected : ComponentOverride)
    → IsCovered c e name selected
    → workload_freshness selected (lookup name e.workloads) (lookup name c.components) ≡ none
unfolding workload_freshness
IsCovered-workload_freshness c e name selected k =
    rw (k.recorded, k.running)
      (ground (
        arith,
        k.complete,
        (eq_iff k.observed.image k.checked.image).1 k.image,
        (eq_iff k.observed.workload_id k.checked.workload_id).1 k.workload,
        (eq_iff selected.image k.checked.image).1 k.desired,
      ))

selected-AllCovered :
    (overrides : Map ComponentOverride) (c : Composition) (e : VerificationEvidence)
    → selected_workload_freshness overrides c e ≡ none
    → AllCovered overrides c e
unfolding selected_workload_freshness
selected-AllCovered [] c e h = tt
selected-AllCovered ((name, selected) ∷ rest) c e h = (
  workload_freshness-IsCovered c e name selected (ground arith),
  selected-AllCovered rest c e (ground arith),
)

AllCovered-selected :
    (overrides : Map ComponentOverride) (c : Composition) (e : VerificationEvidence)
    → AllCovered overrides c e
    → selected_workload_freshness overrides c e ≡ none
unfolding selected_workload_freshness
AllCovered-selected [] c e k = refl
AllCovered-selected ((name, selected) ∷ rest) c e (k, ks) =
    rw (IsCovered-workload_freshness c e name selected k) (AllCovered-selected rest c e ks)

-- What is found of a workload is never that its evidence is current.
workload_freshness-found :
    (selected : ComponentOverride) (a : Option VerificationWorkload)
    (b : Option ComponentObservation)
    → workload_freshness selected a b ≢ some current
unfolding workload_freshness
workload_freshness-found selected none b h = cc
workload_freshness-found selected (some checked) none h = ground arith
workload_freshness-found selected (some checked) (some observed) h = ground arith

selected-found :
    (overrides : Map ComponentOverride) (c : Composition) (e : VerificationEvidence)
    → selected_workload_freshness overrides c e ≢ some current
unfolding selected_workload_freshness
selected-found [] c e h = cc
selected-found ((name, selected) ∷ rest) c e h = ground (
  arith,
  workload_freshness-found selected (lookup name e.workloads) (lookup name c.components),
  selected-found rest c e,
)

-- Nothing was found of the workloads, and the check passed.
passed-outcome :
    (overrides : Map ComponentOverride) (c : Composition) (e : VerificationEvidence)
    → or_freshness (selected_workload_freshness overrides c e) (outcome_of e) ≡ current
    → (selected_workload_freshness overrides c e ≡ none) × (e.outcome ≡ "passed")
passed-outcome overrides c e h =
    at (selected_workload_freshness overrides c e) (selected-found overrides c e) h
  where
    at :
        (o : Option Freshness)
        → o ≢ some current
        → or_freshness o (outcome_of e) ≡ current
        → (o ≡ none) × (e.outcome ≡ "passed")
    at none n h' = (refl, (eq_iff e.outcome "passed").0 (ground arith))
    at (some f) n h' = elim (n (ap some h')) [ ]

module _ (p : Platform) where
  -- Evidence of a check that passed, with fingerprints, for the desired generation, of a baseline that
  -- was observed lately and is known, of its contract, and of the workloads that run and are selected.
  pub record IsCurrent (c : Composition) (e : VerificationEvidence) (now : Time) : Type 0 where
    pub fingerprinted : str_eq e.baseline_fingerprint "" ≡ false
    pub contracted : str_eq e.contract_fingerprint "" ≡ false
    pub generation : e.generation ≡ c.generation
    pub observation : BaselineObservation
    pub observed : c.baseline_observation ≡ some observation
    pub state : observation.state ≡ "current"
    pub dated : (observation.observed_at == 0) ≡ false
    pub recent : now - observation.observed_at ≤ max_age
    pub scoped : str_eq e.baseline_scope "" ≡ false
    pub scope : e.baseline_scope ≡ scope_of observation
    pub fingerprint : e.baseline_fingerprint ≡ observation.fingerprint
    pub known : baseline_coverage_known observation ≡ true
    pub plan : ResolvedPlan
    pub planned : c.runtime.plan ≡ some plan
    pub contract :
        e.contract_fingerprint ≡ verification_contract_fingerprint p plan.baseline.verification
    pub covered : AllCovered c.overrides c e
    pub passed : e.outcome ≡ "passed"

  current-IsCurrent :
      (c : Composition) (e : VerificationEvidence) (now : Time)
      → evidence_freshness_at p c e now ≡ current
      → IsCurrent c e now
  unfolding evidence_freshness_at baseline_evidence_freshness
  current-IsCurrent c e now h = at c.baseline_observation c.runtime.plan refl refl h
    where
      at :
          (o : Option BaselineObservation) (q : Option ResolvedPlan)
          → c.baseline_observation ≡ o
          → c.runtime.plan ≡ q
          → (if str_eq e.baseline_fingerprint "" || str_eq e.contract_fingerprint ""
              then unknown_coverage
              else if not (e.generation == c.generation)
              then stale
              else or_freshness
                  (elim o [ none ↦ some unavailable | some b ↦ observed_freshness e now b ])
                  (planned_freshness p c e q))
            ≡ current
          → IsCurrent c e now
      at none q s t h' = ground arith
      at (some o) none s t h' = ground arith
      at (some o) (some plan) s t h' = record {
        fingerprinted = ground arith;
        contracted = ground arith;
        generation = ground arith;
        observation = o;
        observed = s;
        state = (eq_iff o.state "current").0 (ground arith);
        dated = ground arith;
        recent = ground arith;
        scoped = ground arith;
        scope = (eq_iff e.baseline_scope (scope_of o)).0 (ground arith);
        fingerprint = (eq_iff e.baseline_fingerprint o.fingerprint).0 (ground arith);
        known = ground arith;
        plan = plan;
        planned = t;
        contract = (eq_iff _ _).0 (ground arith);
        covered =
            selected-AllCovered c.overrides c e (passed-outcome c.overrides c e (ground arith)).0;
        passed = (passed-outcome c.overrides c e (ground arith)).1;
      }

  IsCurrent-current :
      (c : Composition) (e : VerificationEvidence) (now : Time)
      → IsCurrent c e now
      → evidence_freshness_at p c e now ≡ current
  unfolding evidence_freshness_at baseline_evidence_freshness
  IsCurrent-current c e now k = ground (
    arith,
    k.observed,
    k.planned,
    AllCovered-selected c.overrides c e k.covered,
    k.fingerprinted,
    k.contracted,
    k.generation,
    k.dated,
    k.recent,
    k.scoped,
    k.known,
    (eq_iff k.observation.state "current").1 k.state,
    (eq_iff e.baseline_scope (scope_of k.observation)).1 k.scope,
    (eq_iff e.baseline_fingerprint k.observation.fingerprint).1 k.fingerprint,
    (eq_iff e.contract_fingerprint
          (verification_contract_fingerprint p k.plan.baseline.verification)).1
        k.contract,
    (eq_iff e.outcome "passed").1 k.passed,
  )

  -- Evidence is called current just when it is.
  pub evidence_freshness_at-IsCurrent :
      (c : Composition) (e : VerificationEvidence) (now : Time)
      → (evidence_freshness_at p c e now ≡ current) ↔ IsCurrent c e now
  evidence_freshness_at-IsCurrent c e now = (current-IsCurrent c e now, IsCurrent-current c e now)
