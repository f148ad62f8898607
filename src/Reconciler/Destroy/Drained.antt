-- ===== src/Reconciler/Destroy/Drained.antt =====
-- internal/reconciler/reconciler.go: in which order `destroy` withdraws routes, waits for requests
-- in flight and deletes the namespace.
use envy.Common.{
  ◌≡◌, ◌∙◌, ◌⊎◌, inl, inr, ap, subst, refl, Bool, true, false, Option, some, String, ◌∷◌,
}
use envy.Model.{Composition, Platform, ResolvedPlan}
use envy.Reconciler.Effects.{
  M, Oracle, Config, Messaging, Worker, Res, ok, failed, History, verify_absent, is_ok, ◌>>=◌, gets,
  modify, pure, ask, lift, continue,
}
use envy.Reconciler.Routes.{sync_routes}
use envy.Reconciler.Snapshot.{endpoint_host}
use envy.Reconciler.Keeps.{Keeps, Fixes, fixes_rules}
use envy.Reconciler.Destroy.Order.{
  deletions, view, Spares, sync_routes-comp, withdraw_published-Spares,
}
use envy.Reconciler.Destroy.Trail.{Follows, sync_routes-Follows, after_routes-Follows}
use envy.Reconciler.Destroy.Retraction.{
  Drained, Drained-later, Drained-earlier, Waited-Drained, drain-Waited,
}
use envy.Reconciler.Destroy

abbrev is_removed : Composition → Bool
is_removed c = c.runtime.routes_removed

module _ (p : Platform) (o : Oracle) (cfg : Config) where
  -- Where routes are published, their withdrawal goes on only when it is complete.
  withdraw-Drained :
      (w : Worker)
      → (Destroy.withdraw p o cfg w).0 ≡ ok true
      → Drained p o cfg w.comp w.history (Destroy.withdraw p o cfg w).1
  unfolding Destroy.withdraw ◌>>=◌ gets lift ask
  withdraw-Drained w e = hosted (endpoint_host p w.comp) refl e
    where
      asked :
          (name : String) (r : Res (Unit {0}))
          → endpoint_host p w.comp ≡ ok name
          → o.verify_absent w.history name ≡ r
          → let u = record w {
            history = record { request = verify_absent name; succeeded = is_ok r } ∷ w.history;
          } in
            (continue r (λ _ v. Destroy.drain p o cfg v.comp.runtime.drain_until v) u).0 ≡ ok true
            → Drained p o cfg w.comp w.history
                (continue r (λ _ v. Destroy.drain p o cfg v.comp.runtime.drain_until v) u).1
      asked name (ok _) n gone q =
          Waited-Drained p o cfg w _ name n gone (drain-Waited p o cfg _ _ q)
      asked name (failed x) n gone q = cc

      hosted :
          (r : Res String)
          → endpoint_host p w.comp ≡ r
          → let m = λ (name : String).
            ask (verify_absent name) (λ h. o.verify_absent h name) >>= λ _.
            gets (λ c. c.runtime.drain_until) >>= Destroy.drain p o cfg in
            (continue r m w).0 ≡ ok true → Drained p o cfg w.comp w.history (continue r m w).1
      hosted (ok name) n q = asked name (o.verify_absent w.history name) n refl q
      hosted (failed x) n q = cc

  withdraw_published-Drained :
      (w : Worker) (b : Bool)
      → Destroy.is_published p o cfg w.comp ≡ b
      → (Destroy.withdraw_published p o cfg b w).0 ≡ ok true
      → (Destroy.is_published p o cfg w.comp ≡ false)
        ⊎ Drained p o cfg w.comp w.history (Destroy.withdraw_published p o cfg b w).1
  unfolding Destroy.withdraw_published
  withdraw_published-Drained w true e q = inr (withdraw-Drained w q)
  withdraw_published-Drained w false e q = inl e

  -- What a teardown of a composition did about the namespace: nothing, or no route was published, or
  -- the withdrawal of the routes was complete.
  abbrev pub SafeDeletion : Composition → History → Worker → Type 0
  SafeDeletion c before v =
      (deletions v.history ≡ deletions before)
      ⊎ (Destroy.is_published p o cfg c ≡ false)
      ⊎ Drained p o cfg c before v

  complete_destroy-removed :
      (b : Bool) → Keeps (Fixes is_removed) (Destroy.complete_destroy p o cfg b)
  unfolding Destroy.complete_destroy Destroy.mark_destroyed
  complete_destroy-removed b = search fixes_rules

  remove_isolated-removed :
      (m : Option Messaging) (plan : Option ResolvedPlan)
      → Keeps (Fixes is_removed) (Destroy.remove_isolated p o cfg m plan)
  unfolding Destroy.remove_isolated Destroy.delete_subscriptions
  remove_isolated-removed (some m) (some plan) = search fixes_rules depth 9
  remove_isolated-removed _ _ = search fixes_rules

  after_namespace-removed :
      (b : Bool) → Keeps (Fixes is_removed) (Destroy.after_namespace p o cfg b)
  unfolding Destroy.after_namespace Destroy.remove_messaging
  after_namespace-removed true =
      search (fixes_rules, remove_isolated-removed, complete_destroy-removed) depth 9
  after_namespace-removed false = search fixes_rules depth 7

  after_routes-Keeps : (b : Bool) → Keeps (Fixes is_removed) (Destroy.after_routes p o cfg b)
  unfolding Destroy.after_routes Destroy.remove_namespace
  after_routes-Keeps true = search (fixes_rules, after_namespace-removed) depth 9
  after_routes-Keeps false = search fixes_rules

  -- What comes after the routes leaves their removal on record.
  after_routes-removed :
      (b : Bool) (w : Worker)
      → (Destroy.after_routes p o cfg b w).1.comp.runtime.routes_removed
        ≡ w.comp.runtime.routes_removed
  after_routes-removed b w = ((after_routes-Keeps b).at w).same

  after_withdrawal :
      (w : Worker) (r : Res Bool × Worker)
      → Spares w r.1
      → (r.0 ≡ ok true
          → (Destroy.is_published p o cfg w.comp ≡ false) ⊎ Drained p o cfg w.comp w.history r.1)
      → SafeDeletion w.comp w.history (continue r.0 (Destroy.after_routes p o cfg) r.1).1
  unfolding Destroy.after_routes pure view
  after_withdrawal w (failed e, v) s d = inl (ap (λ x. x.deletions) s.same)
  after_withdrawal w (ok false, v) s d = inl (ap (λ x. x.deletions) s.same)
  after_withdrawal w (ok true, v) s d = elim (d refl) [
    | inl closed ↦ inr (inl closed)
    | inr drained ↦ inr (
        inr (
          Drained-later p o cfg w.comp w.history v _ drained
            ((after_routes-Follows p o cfg true).at v) (after_routes-removed true v)))
  ]

  -- What follows the first publication of the routes.
  abbrev withdrawal : M (Unit {0})
  withdrawal = gets (Destroy.is_published p o cfg) >>= λ published.
      Destroy.withdraw_published p o cfg published >>= Destroy.after_routes p o cfg

  withdrawal-SafeDeletion : (v : Worker) → SafeDeletion v.comp v.history (withdrawal v).1
  unfolding ◌>>=◌ gets
  withdrawal-SafeDeletion v =
      after_withdrawal v
        (Destroy.withdraw_published p o cfg (Destroy.is_published p o cfg v.comp) v)
        ((withdraw_published-Spares p o cfg _).at v) (withdraw_published-Drained v _ refl)

  synced-SafeDeletion :
      (w : Worker) (r : Res (Unit {0})) (v : Worker)
      → v.comp ≡ w.comp
      → deletions v.history ≡ deletions w.history
      → Follows w v
      → SafeDeletion w.comp w.history (continue r (λ _. withdrawal) v).1
  synced-SafeDeletion w (failed e) v same kept f = inl kept
  synced-SafeDeletion w (ok _) v same kept f =
      subst (λ c. SafeDeletion c w.history (withdrawal v).1) same
        (elim (withdrawal-SafeDeletion v) [
          | inl calm ↦ inl (calm ∙ kept)
          | inr d ↦ inr (elim d [
            | inl closed ↦ inl closed
            | inr drained ↦ inr (Drained-earlier p o cfg v.comp w v _ f kept drained)
          ])
        ])

  teardown-SafeDeletion :
      (w : Worker) → SafeDeletion w.comp w.history (Destroy.teardown p o cfg w).1
  unfolding Destroy.teardown ◌>>=◌
  teardown-SafeDeletion w =
      let (same, kept) = sync_routes-comp p o w in
      synced-SafeDeletion w (sync_routes p o w).0 (sync_routes p o w).1 same kept
        ((sync_routes-Follows p o).at w)

  -- A teardown deletes a namespace only if no route of the composition was published, or, in this
  -- order, the host of its endpoint was seen withdrawn, the drain time that an earlier cycle recorded
  -- has passed, the removal of the routes was stored, and the routes were published after that.
  pub destroy-SafeDeletion :
      (w : Worker)
      → SafeDeletion (Destroy.begin_destroy w.comp) w.history (Destroy.destroy p o cfg w).1
  unfolding Destroy.destroy ◌>>=◌ modify
  destroy-SafeDeletion w = teardown-SafeDeletion (record w { comp = Destroy.begin_destroy w.comp })
