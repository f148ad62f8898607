-- ===== src/Reconciler/Ready.antt =====
-- internal/reconciler/reconciler.go: when an endpoint is reported ready.
pub mod Steps
pub mod Steady
pub mod Cycles
pub mod Scans
use envy.Common.{
  ℕ, ◌≡◌, ◌∙◌, ◌≢◌, eq_iff, str_eq, Bool-cases, ◌⊎◌, inl, inr, ap, sym, subst, refl, Bool, true,
  false, Option, none, some, List, [], ◌∷◌, String, Map, if◌then◌else◌, arith,
}
use envy.Model.{Composition, Platform, ResolvedPlan, Time, Err, Endpoint, Phase}
use envy.Domain.Catalog.{override_names}
use envy.Reconciler.Effects.{
  M, Oracle, Config, Worker, Res, ok, failed, History, Request, VerificationResult, continue, ◌>>=◌,
  ◌>>◌, gets, modify, ask_both, verify, lift, pure, fail, clock,
}
use envy.Reconciler.Intent.{held, Intent, intent, NoneReady, set_endpoints-NoneReady}
use envy.Reconciler.Keeps.{Keeps, Calm, IsLawful, AllLawful}
use envy.Reconciler.Held.{held_rules, held_trail, held-gets, sync_routes-Held}
use envy.Reconciler.Held.Provision.{
  observe_current-Held, prepare_messaging-Held, visit_components-Held,
}
use envy.Reconciler.Held.Conclude
use envy.Reconciler.Failure.{set_endpoints, set_ready}
use envy.Reconciler.Step.Publish
use envy.Reconciler.Snapshot
use envy.Reconciler.Step.Unready
use envy.Reconciler.Step

-- The end of a step that reaches readiness: it returns no error, the composition is in the ready
-- phase with its desired state unchanged, and `V` holds of that state.
pub record Reached (V : Intent → Type 0) (w : Worker) (r : Res (Unit {0}) × Worker) : Type 0 where
  pub returned : r.0 ≡ ok tt
  pub phase : r.1.comp.phase ≡ Phase.ready
  pub level : r.1.comp.verification_level ≢ "none"
  pub intent_kept : intent r.1.comp ≡ intent w.comp
  pub lawful : NoneReady w.comp.endpoints → AllLawful w.history → AllLawful r.1.history
  pub evidence : V (intent w.comp)

abbrev pub Outcome : (Intent → Type 0) → Worker → Res (Unit {0}) × Worker → Type 0
Outcome V w r = Calm held w r.1 ⊎ Reached V w r

-- An action leaves endpoints and desired state as they are, or reaches readiness.
pub record MayReach (V : Intent → Type 0) (m : M (Unit {0})) : Type 0 where
  pub at : (w : Worker) → Outcome V w (m w)

module _ (V : Intent → Type 0) where
  pub MayReach-held : (m : M (Unit {0})) → Keeps (Calm held) m → MayReach V m
  MayReach-held m k = record { at = λ w. inl (k.at w) }

  pub MayReach-if :
      (b : Bool) (m n : M (Unit {0}))
      → MayReach V m
      → MayReach V n
      → MayReach V (if b then m else n)
  MayReach-if true m n km kn = km
  MayReach-if false m n km kn = kn

  -- A calm action before.
  pub Outcome-after :
      (u v : Worker) (r : Res (Unit {0}) × Worker) → Calm held u v → Outcome V v r → Outcome V u r
  unfolding held
  Outcome-after u v r c (inl d) = inl (held_trail.follow u v _ c d)
  Outcome-after u v r c (inr d) =
      let same : intent v.comp ≡ intent u.comp = ap (λ x. x.0) c.same in
      inr (record {
        returned = d.returned;
        phase = d.phase;
        level = d.level;
        intent_kept = d.intent_kept ∙ same;
        lawful = λ n h. d.lawful (subst (λ x. NoneReady x.1) (sym c.same) n) (c.lawful n h);
        evidence = subst V same d.evidence;
      })

  pub Outcome-continue :
      {A : Type 0} (f : A → M (Unit {0})) (r : Res A) (u v : Worker)
      → Calm held u v
      → ((a : A) → Outcome V v (f a v))
      → Outcome V u (continue r f v)
  Outcome-continue f (failed e) u v c k = inl c
  Outcome-continue f (ok a) u v c k = Outcome-after u v _ c (k a)

  pub MayReach-bind :
      {A : Type 0} (m : M A) (f : A → M (Unit {0}))
      → Keeps (Calm held) m
      → ((a : A) → MayReach V (f a))
      → MayReach V (m >>= f)
  unfolding ◌>>=◌
  MayReach-bind m f km kf = record {
    at = λ w. Outcome-continue f (m w).0 w (m w).1 (km.at w) (λ a. (kf a).at (m w).1);
  }

-- The verifier has answered, for the desired state, without an error.
abbrev pub Verified : Oracle → ResolvedPlan → Intent → Type 0
Verified o plan i =
    (h : History) × (host : String) × (pods : Map String) × ((o.verify h i.id host pods
        (Publish.plan_for_overrides plan i.overrides)).1
      ≡ none)

mark_ready-phase :
    (plan : ResolvedPlan) (c : Composition) → (Publish.mark_ready plan c).phase ≡ Phase.ready
unfolding Publish.mark_ready
mark_ready-phase plan c = ground arith

routing-ne-none : ◌≢◌ {A = String} "routing" "none"
routing-ne-none e = cc ((eq_iff "routing" "none").1 e)

reachability-ne-none : ◌≢◌ {A = String} "reachability" "none"
reachability-ne-none e = cc ((eq_iff "reachability" "none").1 e)

mark_ready-level :
    (plan : ResolvedPlan) (c : Composition)
    → (Publish.mark_ready plan c).verification_level ≢ "none"
unfolding Publish.mark_ready
mark_ready-level plan c = elim (Bool-cases (str_eq plan.baseline.verification.kind "http")) [
  | inl e ↦ rw e reachability-ne-none
  | inr e ↦ rw e routing-ne-none
]

mark_ready-intent :
    (plan : ResolvedPlan) (c : Composition) → intent (Publish.mark_ready plan c) ≡ intent c
unfolding Publish.mark_ready intent
mark_ready-intent plan c = ground arith

pub Outcome-map :
    (V U : Intent → Type 0) (w : Worker) (r : Res (Unit {0}) × Worker)
    → (V (intent w.comp) → U (intent w.comp))
    → Outcome V w r
    → Outcome U w r
Outcome-map V U w r f (inl c) = inl c
Outcome-map V U w r f (inr d) = inr (record {
  returned = d.returned;
  phase = d.phase;
  level = d.level;
  intent_kept = d.intent_kept;
  lawful = d.lawful;
  evidence = f d.evidence;
})

module _ (p : Platform) (o : Oracle) (cfg : Config) (plan : ResolvedPlan) where
  become_ready-MayReach :
      (V : Intent → Type 0) (b : Bool)
      → ((i : Intent) → V i)
      → MayReach V (Publish.become_ready p o cfg plan b)
  unfolding Publish.become_ready set_ready intent ◌>>=◌ modify gets clock pure Unready.schedule_next
  become_ready-MayReach V false v = record { at = λ w. inl (held_trail.stay w) }
  become_ready-MayReach V true v = record {
    at = λ w. inr (record {
      returned = refl;
      phase = mark_ready-phase plan w.comp;
      level = mark_ready-level plan w.comp;
      intent_kept = mark_ready-intent plan w.comp;
      lawful = λ n h. (tt, h);
      evidence = v (intent w.comp);
    });
  }

  judge_verification-MayReach :
      (t : Time) (r : VerificationResult) (e : Option Err)
      → MayReach (λ _. e ≡ none) (Publish.judge_verification p o cfg plan t r e)
  unfolding Publish.judge_verification
  judge_verification-MayReach t r (some e) =
      MayReach-held _ _ (Conclude.unverified-Held p o cfg plan e t)
  judge_verification-MayReach t r none =
      MayReach-bind _ _ _ (Conclude.record_hops-Held p o cfg plan r.composition) λ _.
        MayReach-bind _ _ _ (Conclude.retire_routed-Held o cfg)
          λ b. become_ready-MayReach _ b (λ _. refl)

  judge_checked-MayReach :
      (pods : Map String) (t : Time) (got : VerificationResult × Option Err)
      → MayReach (λ _. got.1 ≡ none) (Publish.judge_checked p o cfg plan pods t got)
  unfolding Publish.judge_checked
  judge_checked-MayReach pods t got =
      MayReach-bind _ _ _ (held-gets (λ c. c.baseline_observation)) λ b.
        MayReach-bind _ _ _ (Conclude.recheck_baseline-Held p o cfg plan b) λ _.
          MayReach-bind _ _ _ (Conclude.store_evidence-Held p o cfg plan pods got.0 got.1)
            λ _. judge_verification-MayReach t got.0 got.1

  verify_routes-MayReach :
      (pods : Map String) (t : Time)
      → MayReach (Verified o plan) (Publish.verify_routes p o cfg plan pods t)
  unfolding Publish.verify_routes ◌>>=◌ gets lift ask_both intent held
  verify_routes-MayReach pods t = record {
    at = λ w.
        Outcome-continue (Verified o plan) _ (Snapshot.endpoint_host p w.comp) w w
          (held_trail.stay w)
          λ name.
            let got =
              o.verify w.history w.comp.id name pods
                (Publish.plan_for_overrides plan w.comp.overrides) in
            Outcome-after (Verified o plan) w _ _ (record { same = refl; lawful = λ n h. (tt, h) })
              (Outcome-map (λ _. got.1 ≡ none) (Verified o plan) _ _
                (λ e. (w.history, name, pods, e)) ((judge_checked-MayReach pods t got).at _));
  }

  pub conclude_routed-MayReach :
      (pods : Map String) (t : Time)
      → MayReach (Verified o plan) (Publish.conclude_routed p o cfg plan pods t)
  unfolding Publish.conclude_routed
  conclude_routed-MayReach pods t =
      MayReach-bind _ _ _ (Conclude.publish_routes-Held p o) (λ _. verify_routes-MayReach pods t)
