-- ===== src/Reconciler/Ready/Scans.antt =====
-- internal/reconciler/reconciler.go: what a scan of the store by `Tick` has done.
use envy.Common.{◌≡◌, refl, false, List, [], ◌∷◌, some, none}
use envy.Model.{Composition, Platform}
use envy.Reconciler.Effects.{
  M, Oracle, Config, Worker, Res, ok, failed, ◌>>=◌, modify, pure, ask, wrap, clock, continue,
  History, Call, check_guard, read_clock, is_ok, wrap_result,
}
use envy.Reconciler.Keeps.{Keeps, IsTrail, AllLawful, Keeps-bind, Keeps-pure, Keeps-wrap}
use envy.Reconciler.Ready.Cycles.{reconcile-CycleOutcome}
use envy.Reconciler.Cycle
use envy.Reconciler.Effects

-- Only lawful calls are made.
pub record Lawful (u v : Worker) : Type 0 where
  pub lawful : AllLawful u.history → AllLawful v.history

pub Lawful-IsTrail : IsTrail Lawful
Lawful-IsTrail = record {
  stay = λ w. record { lawful = λ h. h };
  follow = λ u v w p q. record { lawful = λ h. q.lawful (p.lawful h) };
}

module _ (p : Platform) (o : Oracle) (cfg : Config) where
  reconcile_all-Lawful : (cs : List Composition) → Keeps Lawful (Cycle.reconcile_all p o cfg cs)
  unfolding Cycle.reconcile_all modify
  reconcile_all-Lawful [] = Keeps-pure Lawful-IsTrail tt
  reconcile_all-Lawful (c ∷ cs) =
      Keeps-bind Lawful-IsTrail _ _ (record { at = λ w. record { lawful = λ h. h } })
        λ _.
          Keeps-bind Lawful-IsTrail _ _
            (record {
              at = λ w. record { lawful = (reconcile-CycleOutcome p o cfg false w).lawful };
            })
            (λ _. reconcile_all-Lawful cs)

  read_all-Lawful : Keeps Lawful (
      wrap "scan desired compositions" (ask Effects.read_active o.active)
      >>= Cycle.reconcile_all p o cfg)
  unfolding ask
  read_all-Lawful =
      Keeps-bind Lawful-IsTrail _ _
        (Keeps-wrap _ _ (record { at = λ w. record { lawful = λ h. (tt, h) } }))
        reconcile_all-Lawful

  after_expire :
      (r : Res (Unit {0})) (u : Worker)
      → Lawful u
          (continue
            (wrap_result "persist expirations" r)
            (λ _.
              wrap "scan desired compositions" (ask Effects.read_active o.active)
              >>= Cycle.reconcile_all p o cfg)
            u).1
  after_expire (ok _) u = read_all-Lawful.at u
  after_expire (failed e) u = Lawful-IsTrail.stay u

  -- Expirations are recorded right after the leadership check and a look at the clock.
  scan-Lawful : (w : Worker) → Lawful w (Cycle.scan p o cfg w).1
  unfolding Cycle.scan ◌>>=◌ wrap ask clock
  scan-Lawful w = checked (o.guard w.history) refl
    where
      checked : (r : Res (Unit {0})) → o.guard w.history ≡ r → Lawful w (Cycle.scan p o cfg w).1
      checked (ok x) e = rw e (
          Lawful-IsTrail.follow w _ _ (record { lawful = λ h. ((refl, refl), (tt, (tt, h))) })
            (after_expire (o.expire _ (o.now _)) _))
      checked (failed x) e = rw e (record { lawful = λ h. (tt, h) })

  -- Every call of a scan is lawful after those before it: routes are written only right after a
  -- successful leadership check and a fresh read of all active compositions, expirations right
  -- after such a check, and a composition is saved with a ready endpoint only in the ready phase,
  -- with a level of verification and observed at its desired generation.
  pub tick-AllLawful :
      (w : Worker) → AllLawful w.history → AllLawful (Cycle.tick p o cfg w).1.history
  unfolding Cycle.tick
  tick-AllLawful w = (scan-Lawful (record w { route_cycle = some none })).lawful
