-- ===== src/Reconciler/Ready/Steps.antt =====
-- internal/reconciler/reconciler.go: what `step` has done, whatever the providers answer.
use envy.Common.{
  ◌≡◌, ◌∙◌, ◌≢◌, ◌⊎◌, inl, inr, ap, sym, subst, refl, Bool, true, false, not, Option, none, some,
  List, String, if◌then◌else◌, arith, ltb, length,
}
use envy.Domain.Catalog.{override_names, max_overrides}
use envy.Model.{Composition, Platform, ResolvedPlan, Time, Phase}
use envy.Reconciler.Intent.{held, Intent, intent, NoneReady, set_endpoints-NoneReady}
use envy.Reconciler.Effects.{Oracle, Config, Worker, Res, ok, ◌>>=◌, gets, modify}
use envy.Reconciler.Keeps.{Keeps, Calm, AllLawful}
use envy.Reconciler.Held.{held-fail, held-gets, held-modify, held-bind, sync_routes-Held}
use envy.Reconciler.Held.Teardown.{withdraw_published-Held, after_routes-Held}
use envy.Reconciler.Held.Provision.{
  observe_current-Held, prepare_messaging-Held, visit_components-Held,
}
use envy.Reconciler.Held.Conclude.{conclude_unready-Held, conclude_endpoint_free-Held}
use envy.Reconciler.Ready.{
  Reached, Outcome, MayReach, MayReach-held, MayReach-if, MayReach-bind, Outcome-map, Verified,
  conclude_routed-MayReach,
}
use envy.Reconciler.Failure.{set_ready, set_endpoints}
use envy.Reconciler.Destroy.{destroy, teardown, begin_destroy, is_published}
use envy.Reconciler.Step.Baseline.{begin_step}
use envy.Reconciler.Step.Workloads.{Progress}
use envy.Reconciler.Step

-- Verification of the plan that is desired.
abbrev pub PlanVerified : Oracle → Intent → Type 0
PlanVerified o i = (plan : ResolvedPlan) × (i.plan ≡ some plan) × Verified o plan i

-- After a step no endpoint is ready; or all went well, the composition is not being deleted, it is
-- in the ready phase with a level of verification, and the verifier has confirmed its plan.
pub record NotReady (w : Worker) (r : Res (Unit {0}) × Worker) : Type 0 where
  pub endpoints : NoneReady r.1.comp.endpoints

pub record Delivered (o : Oracle) (w : Worker) (r : Res (Unit {0}) × Worker) : Type 0 where
  pub returned : r.0 ≡ ok tt
  pub phase : r.1.comp.phase ≡ Phase.ready
  pub level : r.1.comp.verification_level ≢ "none"
  pub wanted : w.comp.deletion_requested ≡ false
  pub verified : PlanVerified o (intent w.comp)

-- What a step is allowed to do.
pub record StepOutcome (o : Oracle) (w : Worker) (r : Res (Unit {0}) × Worker) : Type 0 where
  pub intent_kept : intent r.1.comp ≡ intent w.comp
  pub lawful : AllLawful w.history → AllLawful r.1.history
  pub readiness : NotReady w r ⊎ Delivered o w r

begin_step-intent : (c : Composition) → intent (begin_step c) ≡ intent c
unfolding begin_step set_ready intent
begin_step-intent c = ground arith

begin_step-endpoints :
    (c : Composition) → (begin_step c).endpoints ≡ set_endpoints false c.endpoints
unfolding begin_step set_ready
begin_step-endpoints c = ground arith

begin_destroy-intent : (c : Composition) → intent (begin_destroy c) ≡ intent c
unfolding begin_destroy set_ready intent
begin_destroy-intent c = refl

begin_destroy-endpoints :
    (c : Composition) → (begin_destroy c).endpoints ≡ set_endpoints false c.endpoints
unfolding begin_destroy set_ready
begin_destroy-endpoints c = refl

module _ (p : Platform) (o : Oracle) (cfg : Config) where
  conclude-MayReach :
      (plan : ResolvedPlan) (t : Time) (g : Progress)
      → MayReach (Verified o plan) (Step.conclude p o cfg plan t g)
  unfolding Step.conclude
  conclude-MayReach plan t g =
      MayReach-if _ (not g.all_ready) _ _
        (MayReach-held _ _ (conclude_unready-Held o cfg _ g t (sync_routes-Held p o)))
        (MayReach-if _ (not g.has_endpoint) _ _
          (MayReach-held _ _ (conclude_endpoint_free-Held o cfg g))
          (conclude_routed-MayReach p o cfg plan g.pods t))

  run_overrides-MayReach :
      (plan : ResolvedPlan) (t : Time) (names : List String)
      → MayReach (Verified o plan) (Step.run_overrides p o cfg plan t names)
  unfolding Step.run_overrides held
  run_overrides-MayReach plan t names =
      MayReach-bind _ _ _ (held-modify Step.reset_conditions (λ c. refl)) λ _.
        MayReach-bind _ _ _ (prepare_messaging-Held o plan) λ _.
          MayReach-bind _ _ _ (visit_components-Held p o names plan names (Step.no_progress plan))
            λ g. MayReach-bind _ _ _ (held-modify _ (λ c. refl)) (λ _. conclude-MayReach plan t g)

  run_plan-MayReach :
      (t : Time) (plan : ResolvedPlan)
      → MayReach (Verified o plan) (Step.run_plan p o cfg t (some plan))
  unfolding Step.run_plan
  run_plan-MayReach t plan = MayReach-bind _ _ _ (observe_current-Held o plan) λ _.
      MayReach-bind _ _ _ (held-gets (λ c. override_names c.overrides)) λ names.
        MayReach-if _ (ltb max_overrides (length names)) _ _ (MayReach-held _ _ (held-fail _))
          (run_overrides-MayReach plan t names)

  run_nothing-Held : (t : Time) → Keeps (Calm held) (Step.run_plan p o cfg t none)
  unfolding Step.run_plan
  run_nothing-Held t = held-fail _

  run_plan-Outcome :
      (t : Time) (plan : Option ResolvedPlan) (w : Worker)
      → (intent w.comp).plan ≡ plan
      → Outcome (PlanVerified o) w (Step.run_plan p o cfg t plan w)
  run_plan-Outcome t none w e = inl ((run_nothing-Held t).at w)
  run_plan-Outcome t (some plan) w e =
      Outcome-map (Verified o plan) (PlanVerified o) w _ (λ v. (plan, e, v))
        ((run_plan-MayReach t plan).at w)

  provision-Outcome :
      (w : Worker)
      → Outcome (PlanVerified o) (record w { comp = begin_step w.comp }) (Step.provision p o cfg w)
  unfolding Step.provision ◌>>=◌ modify gets intent
  provision-Outcome w = run_plan-Outcome _ (begin_step w.comp).runtime.plan _ refl

  teardown-Held : Keeps (Calm held) (teardown p o cfg)
  unfolding teardown
  teardown-Held = held-bind _ _ (sync_routes-Held p o) λ _.
      held-bind _ _ (held-gets (is_published p o cfg)) λ published.
        held-bind _ _ (withdraw_published-Held p o cfg published) (after_routes-Held p o cfg)

  destroy-Calm :
      (w : Worker) → Calm held (record w { comp = begin_destroy w.comp }) (destroy p o cfg w).1
  unfolding destroy ◌>>=◌ modify
  destroy-Calm w = teardown-Held.at (record w { comp = begin_destroy w.comp })

  -- A calm run after endpoints were withdrawn.
  Calm-StepOutcome :
      (w : Worker) (d : Composition) (r : Res (Unit {0}) × Worker)
      → d.endpoints ≡ set_endpoints false w.comp.endpoints
      → intent d ≡ intent w.comp
      → Calm held (record w { comp = d }) r.1
      → StepOutcome o w r
  unfolding held
  Calm-StepOutcome w d r off same c =
      let unready : NoneReady d.endpoints = subst NoneReady (sym off) (set_endpoints-NoneReady _) in
      record {
        intent_kept = ap (λ x. x.0) c.same ∙ same;
        lawful = c.lawful unready;
        readiness =
            inl (record { endpoints = subst NoneReady (ap (λ x. x.1) (sym c.same)) unready });
      }

  Reached-StepOutcome :
      (w : Worker) (d : Composition) (r : Res (Unit {0}) × Worker)
      → d.endpoints ≡ set_endpoints false w.comp.endpoints
      → intent d ≡ intent w.comp
      → w.comp.deletion_requested ≡ false
      → Reached (PlanVerified o) (record w { comp = d }) r
      → StepOutcome o w r
  Reached-StepOutcome w d r off same wanted c = record {
    intent_kept = c.intent_kept ∙ same;
    lawful = c.lawful (subst NoneReady (sym off) (set_endpoints-NoneReady _));
    readiness = inr (record {
      returned = c.returned;
      phase = c.phase;
      level = c.level;
      wanted = wanted;
      verified = subst (PlanVerified o) same c.evidence;
    });
  }

  -- A step, with any answers of the store and the providers, keeps the desired state. It writes
  -- routes and expirations, and saves compositions, only as `AllLawful` says. After it no endpoint
  -- is ready; or it returned without an error, the composition is not being deleted, it is in the
  -- ready phase with a level of verification, and the verifier has accepted the desired overrides.
  pub step-StepOutcome : (w : Worker) → StepOutcome o w (Step.step p o cfg w)
  unfolding Step.step ◌>>=◌ gets
  step-StepOutcome w = branch w.comp.deletion_requested refl
    where
      provisioned :
          w.comp.deletion_requested ≡ false
          → Outcome
              (PlanVerified o)
              (record w { comp = begin_step w.comp })
              (Step.provision p o cfg w)
          → StepOutcome o w (Step.provision p o cfg w)
      provisioned wanted (inl c) =
          Calm-StepOutcome w (begin_step w.comp) _ (begin_step-endpoints w.comp)
            (begin_step-intent w.comp) c
      provisioned wanted (inr c) =
          Reached-StepOutcome w (begin_step w.comp) _ (begin_step-endpoints w.comp)
            (begin_step-intent w.comp) wanted c

      branch :
          (b : Bool)
          → w.comp.deletion_requested ≡ b
          → StepOutcome o w ((if b then destroy p o cfg else Step.provision p o cfg) w)
      branch true deleting =
          Calm-StepOutcome w (begin_destroy w.comp) _ (begin_destroy-endpoints w.comp)
            (begin_destroy-intent w.comp) (destroy-Calm w)
      branch false wanted = provisioned wanted (provision-Outcome w)
