-- ===== src/Reconciler/Destroy/Retraction.antt =====
-- internal/reconciler/reconciler.go: what a complete withdrawal of the routes of a composition
-- in `destroy` rests on.
use envy.Common.{
  ◌≤◌, ◌≡◌, ◌∙◌, inl, inr, ap, refl, true, Option, none, some, String, [], ◌∷◌, ◌++◌, sym, arith,
  ltb, Bool-cases,
}
use mathlib.Core.List.{append_assoc}
use envy.Model.{Composition, Platform, Time}
use envy.Reconciler.Effects.{
  Oracle, Config, Worker, Res, ok, failed, History, verify_absent, is_ok, save, read_clock, ◌>>=◌,
  modify, pure, ask, clock, persist, continue,
}
use envy.Reconciler.Routes.{sync_routes}
use envy.Reconciler.Snapshot.{endpoint_host}
use envy.Reconciler.Destroy.Order.{deletions, sync_routes-comp}
use envy.Reconciler.Destroy.Trail.{Follows}
use envy.Reconciler.Destroy

module _ (p : Platform) (o : Oracle) (cfg : Config) where
  -- A worker at the point where the routes of its composition are published without them.
  abbrev pub retracted : Worker → Worker
  retracted x = record x {
    comp = Destroy.without_routes x.comp;
    history =
        record { request = save (Destroy.without_routes x.comp); succeeded = true } ∷ x.history;
  }

  -- The removal of the routes was stored, and the routes were published after it.
  pub record Retracted (x v : Worker) : Type 0 where
    saved : o.save x.history (Destroy.without_routes x.comp) ≡ ok tt
    published : (sync_routes p o (retracted x)).0 ≡ ok tt
    result : v ≡ (sync_routes p o (retracted x)).1

  retract-Retracted :
      (x : Worker)
      → (Destroy.retract p o cfg x).0 ≡ ok tt
      → Retracted x (Destroy.retract p o cfg x).1
  unfolding Destroy.retract ◌>>=◌ modify persist ask
  retract-Retracted x e = stored (o.save x.history (Destroy.without_routes x.comp)) refl e
    where
      stored :
          (r : Res (Unit {0}))
          → o.save x.history (Destroy.without_routes x.comp) ≡ r
          → let u = record x {
            comp = Destroy.without_routes x.comp;
            history =
                record { request = save (Destroy.without_routes x.comp); succeeded = is_ok r }
                ∷ x.history;
          } in
            (continue r (λ _. sync_routes p o) u).0 ≡ ok tt
            → Retracted x (continue r (λ _. sync_routes p o) u).1
      stored (ok _) s q = record { saved = s; published = q; result = refl }
      stored (failed y) s q = cc

  abbrev pub after_clock : Worker → Worker
  after_clock x = record x {
    history = record { request = read_clock; succeeded = true } ∷ x.history;
  }

  -- Waiting is over only once the recorded time has passed, and then the routes are retracted.
  pub record Waited (until : Option Time) (x v : Worker) : Type 0 where
    time : Time
    recorded : until ≡ some time
    passed : time ≤ o.now x.history
    retraction : Retracted (after_clock x) v

  pub drain-Waited :
      (until : Option Time) (x : Worker)
      → (Destroy.drain p o cfg until x).0 ≡ ok true
      → Waited until x (Destroy.drain p o cfg until x).1
  unfolding Destroy.drain ◌>>=◌ clock ask modify pure
  drain-Waited none x e = cc
  drain-Waited (some t) x e = elim (Bool-cases (ltb (o.now x.history) t)) [
    | inl early ↦ cc (early, e)
    | inr late ↦ rw late (record {
      time = t;
      recorded = refl;
      passed = ground arith;
      retraction =
          done (Destroy.retract p o cfg (after_clock x)) (retract-Retracted (after_clock x))
            (rw late at e);
    })
  ]
    where
      done :
          (r : Res (Unit {0}) × Worker)
          → (r.0 ≡ ok tt → Retracted (after_clock x) r.1)
          → (continue r.0 (λ _. pure true) r.1).0 ≡ ok true
          → Retracted (after_clock x) (continue r.0 (λ _. pure true) r.1).1
      done (ok _, v) k q = k refl
      done (failed y, v) k q = cc

  -- What a drained teardown of a composition rests on, in this order: the host of its endpoint was
  -- seen withdrawn, the time that an earlier cycle recorded has passed, the removal of its routes was
  -- stored, and the routes were published after that; any deletion comes later.
  pub record Drained (c : Composition) (before : History) (v : Worker) : Type 0 where
    pub since : History
    pub asked : Worker
    pub teardown : asked.comp ≡ c
    pub started : asked.history ≡ since ++ before
    pub host : String
    pub of_endpoint : endpoint_host p c ≡ ok host
    pub withdrawn : o.verify_absent asked.history host ≡ ok tt
    pub waiting : Worker
    pub looked : waiting ≡ record asked {
      history = record { request = verify_absent host; succeeded = true } ∷ asked.history;
    }
    pub until : Time
    pub recorded : c.runtime.drain_until ≡ some until
    pub passed : until ≤ o.now waiting.history
    pub stored : o.save (after_clock waiting).history (Destroy.without_routes asked.comp) ≡ ok tt
    pub published : (sync_routes p o (retracted (after_clock waiting))).0 ≡ ok tt
    pub undeleted :
        deletions (sync_routes p o (retracted (after_clock waiting))).1.history ≡ deletions before
    pub later : History
    pub made : v.history ≡ later ++ (sync_routes p o (retracted (after_clock waiting))).1.history
    pub removed : v.comp.runtime.routes_removed ≡ true

  pub Drained-later :
      (c : Composition) (before : History) (u v : Worker)
      → Drained c before u
      → Follows u v
      → v.comp.runtime.routes_removed ≡ u.comp.runtime.routes_removed
      → Drained c before v
  Drained-later c before u v d f same = record {
    since = d.since;
    asked = d.asked;
    teardown = d.teardown;
    started = d.started;
    host = d.host;
    of_endpoint = d.of_endpoint;
    withdrawn = d.withdrawn;
    waiting = d.waiting;
    looked = d.looked;
    until = d.until;
    recorded = d.recorded;
    passed = d.passed;
    stored = d.stored;
    published = d.published;
    undeleted = d.undeleted;
    later = f.later ++ d.later;
    made = f.grown ∙ ap (λ h. f.later ++ h) d.made ∙ sym (append_assoc f.later d.later _);
    removed = same ∙ d.removed;
  }

  pub Drained-earlier :
      (c : Composition) (w u v : Worker)
      → Follows w u
      → deletions u.history ≡ deletions w.history
      → Drained c u.history v
      → Drained c w.history v
  Drained-earlier c w u v f kept d = record {
    since = d.since ++ f.later;
    asked = d.asked;
    teardown = d.teardown;
    started =
        d.started ∙ ap (λ h. d.since ++ h) f.grown ∙ sym (append_assoc d.since f.later w.history);
    host = d.host;
    of_endpoint = d.of_endpoint;
    withdrawn = d.withdrawn;
    waiting = d.waiting;
    looked = d.looked;
    until = d.until;
    recorded = d.recorded;
    passed = d.passed;
    stored = d.stored;
    published = d.published;
    undeleted = d.undeleted ∙ kept;
    later = d.later;
    made = d.made;
    removed = d.removed;
  }

  pub Waited-Drained :
      (x v : Worker) (host : String)
      → endpoint_host p x.comp ≡ ok host
      → o.verify_absent x.history host ≡ ok tt
      → Waited x.comp.runtime.drain_until
          (record x {
            history = record { request = verify_absent host; succeeded = true } ∷ x.history;
          })
          v
      → Drained x.comp x.history v
  Waited-Drained x v host of_endpoint gone d =
      let u = record x {
        history = record { request = verify_absent host; succeeded = true } ∷ x.history;
      } in
      let (same, calm) = sync_routes-comp p o (retracted (after_clock u)) in
      record {
        since = [];
        asked = x;
        teardown = refl;
        started = refl;
        host = host;
        of_endpoint = of_endpoint;
        withdrawn = gone;
        waiting = u;
        looked = refl;
        until = d.time;
        recorded = d.recorded;
        passed = d.passed;
        stored = d.retraction.saved;
        published = d.retraction.published;
        undeleted = calm;
        later = [];
        made = ap (λ x. x.history) d.retraction.result;
        removed =
            ap (λ x. x.comp.runtime.routes_removed) d.retraction.result
            ∙ ap (λ c. c.runtime.routes_removed) same;
      }
