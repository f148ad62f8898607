-- ===== src/Reconciler/Destroy/Confirmed.antt =====
-- internal/reconciler/reconciler.go: what `destroy` rests on when it calls a composition destroyed.
use envy.Common.{
  ◌≡◌, ◌∙◌, ap, sym, subst, refl, Bool, true, false, Option, none, some, [], ◌∷◌, ◌++◌, arith,
  str_eq, Map, Bool-cases, inl, inr, copy, if◌then◌else◌,
}
use envy.Model.{plain, Composition, Platform, Phase, WorkloadRef}
use envy.Domain.Catalog.{namespace_for_id}
use envy.Reconciler.Intent.{intent}
use envy.Reconciler.Effects.{
  M, Oracle, Config, Worker, Res, ok, failed, History, ◌>>=◌, ◌>>◌, gets, modify, pure, ask, wrap,
  lift, clock, continue, delete_namespace, confirm_absent, is_ok, wrap_result,
}
use envy.Reconciler.Keeps.{Keeps}
use envy.Reconciler.Destroy
use mathlib.Core.List.{append_assoc}
use envy.Reconciler.Destroy.Trail.{
  Follows, Follows-bind, Follows-gets, sync_routes-Follows, withdraw_published-Follows,
  after_namespace-Follows,
}
use envy.Reconciler.Destroy.Order.{
  view, Spares, Spares-bind, Spares-gets, sync_routes-Spares, withdraw_published-Spares,
}
use envy.Reconciler.Routes.{sync_routes}
use envy.Reconciler.Failure.{set_ready}

-- Looking at the recorded workloads changes neither the namespace to delete nor its owner.
record Extends (ref out : WorkloadRef) : Type 0 where
  namespace : out.namespace ≡ ref.namespace
  token : out.ownership_token ≡ ref.ownership_token

take_uid-Extends : (ref seen : WorkloadRef) → Extends ref (Destroy.take_uid ref seen)
take_uid-Extends ref seen = branch (str_eq seen.namespace_uid "")
  where
    branch :
        (b : Bool)
        → Extends ref (if b then ref else record ref { namespace_uid = seen.namespace_uid })
    branch true = record { namespace = refl; token = refl }
    branch false = record { namespace = refl; token = refl }

some_value : WorkloadRef → Option WorkloadRef → WorkloadRef
some_value d none = d
some_value d (some a) = a

agree-Extends :
    (ref : WorkloadRef) (m : Map WorkloadRef) (out : WorkloadRef)
    → Destroy.agree ref m ≡ some out
    → Extends ref out
unfolding Destroy.agree some_value
agree-Extends ref [] out e =
    subst (Extends ref) (ap (some_value ref) e) (record { namespace = refl; token = refl })
agree-Extends ref ((k, seen) ∷ m) out e = elim (Bool-cases (str_eq seen.namespace "")) [
  | inl empty ↦ agree-Extends ref m out (rw empty at e)
  | inr placed ↦ elim (Bool-cases (Destroy.conflicts ref seen)) [
    | inl clash ↦ cc (rw clash at (rw placed at e))
    | inr fits ↦
        let rest = agree-Extends (Destroy.take_uid ref seen) m out (rw fits at (rw placed at e)) in
        let first = take_uid-Extends ref seen in
        record { namespace = rest.namespace ∙ first.namespace; token = rest.token ∙ first.token }
  ]
]

result : {A : Type 0} → A → Res A → A
result d (ok a) = a
result d (failed e) = d

cleanup_ref-Extends :
    (c : Composition) (ref : WorkloadRef)
    → Destroy.cleanup_ref c ≡ ok ref
    → Extends (Destroy.owned_namespace c) ref
unfolding Destroy.cleanup_ref result
cleanup_ref-Extends c ref e = found _ refl e
  where
    found :
        (o : Option WorkloadRef)
        → Destroy.agree
            (Destroy.owned_namespace c)
            (copy c.runtime.workloads c.runtime.retiring_workloads)
          ≡ o
        → elim o [
          | none ↦ failed (plain "workload namespace ownership identities disagree")
          | some r ↦ ok r
        ]
          ≡ ok ref
        → Extends (Destroy.owned_namespace c) ref
    found none q r = cc
    found (some out) q r =
        agree-Extends (Destroy.owned_namespace c)
          (copy c.runtime.workloads c.runtime.retiring_workloads) ref
          (q ∙ ap (λ x. some (result ref x)) r)

module _ (p : Platform) (o : Oracle) (cfg : Config) where
  -- The namespace of a composition, with its ownership token, was deleted in the teardown, and the
  -- next call saw it absent.
  pub record Confirmed (w v : Worker) : Type 0 where
    pub ref : WorkloadRef
    pub namespace : ref.namespace ≡ namespace_for_id w.comp.id
    pub token : ref.ownership_token ≡ w.comp.runtime.ownership_token
    pub asked : History
    pub since : History
    pub started : asked ≡ since ++ w.history
    pub deleted : o.delete asked ref ≡ ok tt
    pub absent :
        o.absent (record { request = delete_namespace ref; succeeded = true } ∷ asked) ref ≡ ok true
    pub later : History
    pub made :
        v.history
        ≡ later
          ++ (record { request = confirm_absent ref; succeeded = true }
              ∷ record { request = delete_namespace ref; succeeded = true }
              ∷ asked)

  -- What was confirmed stays so as more calls are made.
  Confirmed-later : (w u v : Worker) → Confirmed w u → Follows u v → Confirmed w v
  Confirmed-later w u v c f = record {
    ref = c.ref;
    namespace = c.namespace;
    token = c.token;
    asked = c.asked;
    since = c.since;
    started = c.started;
    deleted = c.deleted;
    absent = c.absent;
    later = f.later ++ c.later;
    made = f.grown ∙ ap (λ h. f.later ++ h) c.made ∙ sym (append_assoc f.later c.later _);
  }

  -- What comes before keeps the desired state.
  Confirmed-earlier : (u v x : Worker) → Spares u v → Follows u v → Confirmed v x → Confirmed u x
  unfolding view intent
  Confirmed-earlier u v x s f c = record {
    ref = c.ref;
    namespace = c.namespace ∙ ap (λ y. namespace_for_id y.intent.id) s.same;
    token = c.token ∙ ap (λ y. y.intent.ownership_token) s.same;
    asked = c.asked;
    since = c.since ++ f.later;
    started =
        c.started ∙ ap (λ h. c.since ++ h) f.grown ∙ sym (append_assoc c.since f.later u.history);
    deleted = c.deleted;
    absent = c.absent;
    later = c.later;
    made = c.made;
  }

  remove_namespace-comp : (v : Worker) → (Destroy.remove_namespace p o cfg v).1.comp ≡ v.comp
  unfolding Destroy.remove_namespace ◌>>=◌ gets lift wrap ask
  remove_namespace-comp v = ground arith

  -- The answer to the question whether the namespace is absent.
  module _ (v : Worker) (ref : WorkloadRef) (x : Extends (Destroy.owned_namespace v.comp) ref)
      (d : o.delete v.history ref ≡ ok tt) where
    abbrev after_delete : History
    after_delete = record { request = delete_namespace ref; succeeded = true } ∷ v.history

    answered :
        (r : Res Bool)
        → o.absent after_delete ref ≡ r
        → wrap_result "confirm workload cleanup" r ≡ ok true
        → Confirmed v (record v {
          history = record { request = confirm_absent ref; succeeded = is_ok r } ∷ after_delete;
        })
    answered (ok gone) a e = record {
      ref = ref;
      namespace = x.namespace;
      token = x.token;
      asked = v.history;
      since = [];
      started = refl;
      deleted = d;
      absent = a ∙ e;
      later = [];
      made = refl;
    }
    answered (failed y) a e = cc

  remove_namespace-Confirmed :
      (v : Worker)
      → (Destroy.remove_namespace p o cfg v).0 ≡ ok true
      → Confirmed v (Destroy.remove_namespace p o cfg v).1
  unfolding Destroy.remove_namespace ◌>>=◌ gets lift wrap ask
  remove_namespace-Confirmed v e = found (Destroy.cleanup_ref v.comp) refl e
    where
      confirm : WorkloadRef → M Bool
      confirm ref = wrap "confirm workload cleanup" (ask (confirm_absent ref) (λ h. o.absent h ref))

      deleted :
          (ref : WorkloadRef) (r : Res (Unit {0}))
          → Extends (Destroy.owned_namespace v.comp) ref
          → o.delete v.history ref ≡ r
          → let u = record v {
            history = record { request = delete_namespace ref; succeeded = is_ok r } ∷ v.history;
          } in
            (continue (wrap_result "delete owned workload" r) (λ _. confirm ref) u).0 ≡ ok true
            → Confirmed v (continue (wrap_result "delete owned workload" r) (λ _. confirm ref) u).1
      deleted ref (ok _) x d q = answered v ref x d _ refl q
      deleted ref (failed y) x d q = cc

      found :
          (r : Res WorkloadRef)
          → Destroy.cleanup_ref v.comp ≡ r
          → let m = λ (ref : WorkloadRef).
            wrap "delete owned workload" (ask (delete_namespace ref) (λ h. o.delete h ref))
            >> confirm ref in
            (continue r m v).0 ≡ ok true → Confirmed v (continue r m v).1
      found (ok ref) x q =
          deleted ref (o.delete v.history ref) (cleanup_ref-Extends v.comp ref x) refl q
      found (failed y) x q = cc

  -- Only a namespace that is gone leads to the phase.
  after_removal :
      (v : Worker) (r : Res Bool) (u : Worker)
      → (r ≡ ok true → Confirmed v u)
      → u.comp.phase ≡ Phase.destroying
      → (continue r (Destroy.after_namespace p o cfg) u).1.comp.phase ≡ Phase.destroyed
      → Confirmed v (continue r (Destroy.after_namespace p o cfg) u).1
  unfolding Destroy.after_namespace ◌>>=◌ clock ask modify
  after_removal v (ok true) u c before after =
      Confirmed-later v u _ (c refl) ((after_namespace-Follows p o cfg true).at u)
  after_removal v (ok false) u c before after = cc
  after_removal v (failed e) u c before after = cc

  after_routes-Confirmed :
      (b : Bool) (v : Worker)
      → v.comp.phase ≡ Phase.destroying
      → (Destroy.after_routes p o cfg b v).1.comp.phase ≡ Phase.destroyed
      → Confirmed v (Destroy.after_routes p o cfg b v).1
  unfolding Destroy.after_routes ◌>>=◌ pure
  after_routes-Confirmed false v before after = cc
  after_routes-Confirmed true v before after =
      after_removal v (Destroy.remove_namespace p o cfg v).0 (Destroy.remove_namespace p o cfg v).1
        (remove_namespace-Confirmed v) (ap (λ c. c.phase) (remove_namespace-comp v) ∙ before) after

  ended :
      (u : Worker) (r : Res Bool × Worker)
      → u.comp.phase ≡ Phase.destroying
      → Spares u r.1
      → Follows u r.1
      → (continue r.0 (Destroy.after_routes p o cfg) r.1).1.comp.phase ≡ Phase.destroyed
      → Confirmed u (continue r.0 (Destroy.after_routes p o cfg) r.1).1
  unfolding view
  ended u (ok b, v) before s f after =
      Confirmed-earlier u v _ s f
        (after_routes-Confirmed b v (ap (λ x. x.phase) s.same ∙ before) after)
  ended u (failed e, v) before s f after = cc (ap (λ x. x.phase) s.same)

  abbrev withdrawn : M Bool
  withdrawn = sync_routes p o >>= λ _.
      gets (Destroy.is_published p o cfg) >>= Destroy.withdraw_published p o cfg

  withdrawn-Spares : Keeps Spares withdrawn
  withdrawn-Spares = Spares-bind _ _ (sync_routes-Spares p o) λ _.
      Spares-bind _ _ (Spares-gets (Destroy.is_published p o cfg))
        (withdraw_published-Spares p o cfg)

  withdrawn-Follows : Keeps Follows withdrawn
  withdrawn-Follows = Follows-bind _ _ (sync_routes-Follows p o) λ _.
      Follows-bind _ _ (Follows-gets (Destroy.is_published p o cfg))
        (withdraw_published-Follows p o cfg)

  regrouped :
      (u : Worker) (r : Res (Unit {0}) × Worker)
      → (continue r.0
          (λ _. gets (Destroy.is_published p o cfg) >>= λ b.
            Destroy.withdraw_published p o cfg b >>= Destroy.after_routes p o cfg)
          r.1)
        ≡ ((λ (x : Res Bool × Worker). continue x.0 (Destroy.after_routes p o cfg) x.1)
            (continue r.0
              (λ _. gets (Destroy.is_published p o cfg) >>= Destroy.withdraw_published p o cfg)
              r.1))
  unfolding ◌>>=◌ gets
  regrouped u (ok _, v) = refl
  regrouped u (failed e, v) = refl

  -- A teardown calls a composition destroyed only if in it the namespace of the composition, with
  -- its ownership token, was deleted, and the next call saw it absent.
  pub destroy-Confirmed :
      (w : Worker)
      → (Destroy.destroy p o cfg w).1.comp.phase ≡ Phase.destroyed
      → Confirmed w (Destroy.destroy p o cfg w).1
  unfolding Destroy.destroy Destroy.teardown Destroy.begin_destroy set_ready ◌>>=◌ modify
  destroy-Confirmed w after =
      let u = record w { comp = Destroy.begin_destroy w.comp } in
      let same = regrouped u (sync_routes p o u) in
      let c =
        ended u (withdrawn u) refl (withdrawn-Spares.at u) (withdrawn-Follows.at u)
          (sym (ap (λ x. x.1.comp.phase) same) ∙ after) in
      record {
        ref = c.ref;
        namespace = c.namespace;
        token = c.token;
        asked = c.asked;
        since = c.since;
        started = c.started;
        deleted = c.deleted;
        absent = c.absent;
        later = c.later;
        made = ap (λ x. x.1.history) same ∙ c.made;
      }
