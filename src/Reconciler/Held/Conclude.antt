-- ===== src/Reconciler/Held/Conclude.antt =====
-- The ends of `step` that do not reach readiness leave the desired state and the endpoints as they
-- are.
use envy.Common.{
  ◌≡◌, ◌∙◌, Bool, true, false, Option, none, some, refl, arith, List, [], ◌∷◌, String, Map,
}
use envy.Model.{
  Composition, Platform, ResolvedPlan, Time, WorkloadRef, Err, ComponentOverride,
  BaselineObservation, VerificationHop,
}
use envy.Reconciler.Effects.{M, Oracle, Config, modify, VerificationResult, Res, ok, failed}
use envy.Reconciler.Keeps.{Keeps, Calm, Keeps-if}
use envy.Reconciler.Intent.{held}
use envy.Reconciler.Held.{held_rules, held-bind, held-pure, held-modify, held-ask, sync_routes-Held}
use envy.Reconciler.Held.Provision.{observe_current-Held}
use envy.Reconciler.Failure
use envy.Reconciler.Step.Retire
use envy.Reconciler.Step.Unready
use envy.Reconciler.Step.Publish
use envy.Reconciler.Step.Workloads.{Progress}

retire_component-held : (k : String) (c : Composition) → held (Retire.retire_component k c) ≡ held c
unfolding Retire.retire_component held
retire_component-held k c = ground arith

retire_components-held :
    (m : Map ComponentOverride) (c : Composition) → held (Retire.retire_components m c) ≡ held c
retire_components-held [] c = refl
retire_components-held ((k, _) ∷ m) c =
    retire_components-held m (Retire.retire_component k c) ∙ retire_component-held k c

adopt_selection-held : (c : Composition) → held (Retire.adopt_selection c) ≡ held c
unfolding held Retire.adopt_selection
adopt_selection-held c = adopt c.runtime.published_overrides
  where
    adopt :
        (m : Option (Map ComponentOverride))
        → held (Retire.set_published (Retire.retire_published m c)) ≡ held c
    adopt none = refl
    adopt (some m) = retire_components-held m c

module _ (o : Oracle) where
  settle_retired-Held : (k : String) (b : Bool) → Keeps (Calm held) (Retire.settle_retired o k b)
  unfolding Retire.settle_retired held
  settle_retired-Held k true = search (held_rules, held-modify)
  settle_retired-Held k false = search (held_rules, held-modify)

  remove_retired-Held :
      (k : String) (ref : WorkloadRef) → Keeps (Calm held) (Retire.remove_retired o k ref)
  unfolding Retire.remove_retired
  remove_retired-Held k ref = search (held_rules, held-ask, settle_retired-Held, tt) depth 9

  remove_all-Held : (m : Map WorkloadRef) → Keeps (Calm held) (Retire.remove_all o m)
  unfolding Retire.remove_all
  remove_all-Held [] = search held_rules
  remove_all-Held ((k, ref) ∷ m) =
      held-bind _ _ (remove_retired-Held k ref)
        (λ gone. Keeps-if gone _ _ (remove_all-Held m) (held-pure false))

  adopt_endpoint_free-Held : (b : Bool) → Keeps (Calm held) (Retire.adopt_endpoint_free o b)
  unfolding Retire.adopt_endpoint_free
  adopt_endpoint_free-Held true = search held_rules
  adopt_endpoint_free-Held false = search (held_rules, held-modify, adopt_selection-held)

  retire_endpoint_free-Held : Keeps (Calm held) (Retire.retire_endpoint_free o)
  unfolding Retire.retire_endpoint_free
  retire_endpoint_free-Held = search (held_rules, adopt_endpoint_free-Held, remove_all-Held) depth 7

module _ (o : Oracle) (cfg : Config) where
  finish_retirement-Held : (b : Bool) → Keeps (Calm held) (Retire.finish_retirement o cfg b)
  unfolding Retire.finish_retirement held
  finish_retirement-Held true = search (held_rules, held-modify)
  finish_retirement-Held false = search held_rules

  drain_retired-Held : (t : Option Time) → Keeps (Calm held) (Retire.drain_retired o cfg t)
  unfolding Retire.drain_retired Retire.remove_drained held
  drain_retired-Held none = search (held_rules, held-modify) depth 9
  drain_retired-Held (some t) =
      search (held_rules, held-modify, remove_all-Held, finish_retirement-Held) depth 9

  pub retire_routed-Held : Keeps (Calm held) (Retire.retire_routed o cfg)
  unfolding Retire.retire_routed
  retire_routed-Held = search (held_rules, drain_retired-Held) depth 7

  timed_out-Held : (t : Time) → Keeps (Calm held) (Failure.timed_out o cfg t)
  unfolding Failure.timed_out
  timed_out-Held t = search held_rules

  pub schedule_next-Held : Keeps (Calm held) (Unready.schedule_next o cfg)
  unfolding Unready.schedule_next held
  schedule_next-Held = search (held_rules, held-modify)

  suspend-Held : Keeps (Calm held) (Unready.suspend o cfg)
  unfolding Unready.suspend Unready.mark_suspended held
  suspend-Held = search (held_rules, held-modify, schedule_next-Held)

  judge_failures-Held :
      (g : Progress) (t : Time) (es : List Err)
      → Keeps (Calm held) (Unready.judge_failures o cfg g t es)
  unfolding Unready.judge_failures Unready.wait_for_workloads held
  judge_failures-Held g t [] = search (held_rules, held-modify, timed_out-Held) depth 7
  judge_failures-Held g t (e ∷ es) = search held_rules

  keep_routes-Held :
      (sync : M (Unit {0}))
      → Keeps (Calm held) sync
      → Keeps (Calm held) (Unready.keep_routes o cfg sync)
  unfolding Unready.keep_routes held
  keep_routes-Held sync k = search (held_rules, held-modify) depth 7

  pub conclude_unready-Held :
      (sync : M (Unit {0})) (g : Progress) (t : Time)
      → Keeps (Calm held) sync
      → Keeps (Calm held) (Unready.conclude_unready o cfg sync g t)
  unfolding Unready.conclude_unready
  conclude_unready-Held sync g t k =
      Keeps-if (Unready.is_suspended g) _ _ suspend-Held
        (held-bind _ _ (keep_routes-Held sync k) (λ _. judge_failures-Held g t g.failures))

  settle_endpoint_free-Held :
      (b d : Bool) → Keeps (Calm held) (Unready.settle_endpoint_free o cfg b d)
  unfolding Unready.settle_endpoint_free Unready.mark_endpoint_free held
  settle_endpoint_free-Held b true = search (held_rules, held-modify, schedule_next-Held)
  settle_endpoint_free-Held b false = search held_rules

  pub conclude_endpoint_free-Held :
      (g : Progress) → Keeps (Calm held) (Unready.conclude_endpoint_free o cfg g)
  unfolding Unready.conclude_endpoint_free
  conclude_endpoint_free-Held g =
      search (held_rules, retire_endpoint_free-Held, settle_endpoint_free-Held)

module _ (p : Platform) (o : Oracle) where
  publish_selection-Held : (b : Bool) → Keeps (Calm held) (Publish.publish_selection p o b)
  unfolding Publish.publish_selection
  publish_selection-Held true = search held_rules
  publish_selection-Held false =
      search (held_rules, held-modify, adopt_selection-held, sync_routes-Held)

  declare_routing-Held : Keeps (Calm held) (Publish.declare_routing p o)
  unfolding Publish.declare_routing held
  declare_routing-Held = search (held_rules, held-modify) depth 7

  pub publish_routes-Held : Keeps (Calm held) (Publish.publish_routes p o)
  unfolding Publish.publish_routes held
  publish_routes-Held =
      search
        (held_rules, held-modify, declare_routing-Held, sync_routes-Held, publish_selection-Held)
        depth 9

record_hops-held :
    (hops : List VerificationHop) (c : Composition) → held (Publish.record_hops hops c) ≡ held c
unfolding Publish.record_hops held
record_hops-held [] c = refl
record_hops-held (hop ∷ hops) c = record_hops-held hops _

module _ (p : Platform) (o : Oracle) (cfg : Config) (plan : ResolvedPlan) where
  unchanged_baseline-Held :
      (s : String) (r : Res (Unit {0})) (b : Option BaselineObservation)
      → Keeps (Calm held) (Publish.unchanged_baseline p o cfg plan s r b)
  unfolding Publish.unchanged_baseline
  unchanged_baseline-Held s (ok _) b = search held_rules
  unchanged_baseline-Held s (failed e) b = search held_rules

  pub recheck_baseline-Held :
      (b : Option BaselineObservation) → Keeps (Calm held) (Publish.recheck_baseline p o cfg plan b)
  unfolding Publish.recheck_baseline
  recheck_baseline-Held none = search held_rules
  recheck_baseline-Held (some b) =
      search (held_rules, observe_current-Held, unchanged_baseline-Held) depth 7

  pub store_evidence-Held :
      (pods : Map String) (r : VerificationResult) (e : Option Err)
      → Keeps (Calm held) (Publish.store_evidence p o cfg plan pods r e)
  unfolding Publish.store_evidence held
  store_evidence-Held pods r e = search (held_rules, held-modify) depth 7

  pub unverified-Held :
      (e : Err) (t : Time) → Keeps (Calm held) (Publish.unverified p o cfg plan e t)
  unfolding Publish.unverified Publish.give_up_or_wait held
  unverified-Held e t = search (held_rules, held-modify, timed_out-Held) depth 12

  pub record_hops-Held :
      (hops : List VerificationHop) → Keeps (Calm held) (modify (Publish.record_hops hops))
  record_hops-Held hops = held-modify _ (record_hops-held hops)
