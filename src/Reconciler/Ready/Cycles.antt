-- ===== src/Reconciler/Ready/Cycles.antt =====
-- internal/reconciler/reconciler.go: what `reconcile` and `Tick` have done, whatever the store and
-- the providers answer.
use envy.Common.{
  ◌≡◌, ◌∙◌, inl, inr, ap, sym, subst, refl, Bool, true, false, Option, none, some, ◌∷◌,
  if◌then◌else◌, arith,
}
use envy.Model.{Composition, Platform, Err, is_stale, wrapped}
use envy.Reconciler.Intent.{held, intent, NoneReady, set_endpoints-NoneReady}
use envy.Reconciler.Effects.{
  M, Oracle, Config, Worker, Res, ok, failed, ◌>>=◌, ◌>>◌, modify, fail, pure, ask, clock, persist,
  catch, Request, History, save, is_ok,
}
use envy.Reconciler.Keeps.{
  Keeps, IsTrail, Calm, AllLawful, IsLawful, Keeps-if, Keeps-bind, Keeps-pure, Keeps-gets,
  Keeps-wrap,
}
use envy.Reconciler.Held.{held_rules, held-modify, held-ask}
use envy.Reconciler.Ready.Steps.{StepOutcome, Delivered, step-StepOutcome}
use envy.Reconciler.Failure
use envy.Reconciler.Failure.{set_ready, set_endpoints, pending_routes, failure, mark_failed}
use envy.Reconciler.Cycle
use envy.Reconciler.Ready.Steady.{Steady, steady_rules, Steady-bind, Steady-ask, bind_none}
use envy.Reconciler.Step.{step}

-- The desired state is kept, endpoints that are not ready stay so, and then only lawful calls are
-- made.
record Dark (u v : Worker) : Type 0 where
  intent_kept : intent v.comp ≡ intent u.comp
  dark : NoneReady u.comp.endpoints → NoneReady v.comp.endpoints
  lawful : NoneReady u.comp.endpoints → AllLawful u.history → AllLawful v.history

Dark-IsTrail : IsTrail Dark
Dark-IsTrail = record {
  stay = λ w. record { intent_kept = refl; dark = λ n. n; lawful = λ n h. h };
  follow = λ u v w p q. record {
    intent_kept = q.intent_kept ∙ p.intent_kept;
    dark = λ n. q.dark (p.dark n);
    lawful = λ n h. q.lawful (p.dark n) (p.lawful n h);
  };
}

Dark-held : {A : Type 0} (m : M A) → Keeps (Calm held) m → Keeps Dark m
unfolding held
Dark-held m k = record {
  at = λ w.
      let c = k.at w in
      record {
        intent_kept = ap (λ x. x.0) c.same;
        dark = λ n. subst (λ x. NoneReady x.1) (sym c.same) n;
        lawful = c.lawful;
      };
}

Dark-bind :
    {A B : Type 0} (m : M A) (f : A → M B)
    → Keeps Dark m
    → ((a : A) → Keeps Dark (f a))
    → Keeps Dark (m >>= f)
Dark-bind = Keeps-bind Dark-IsTrail

mark_failed-Dark : (e : Err) → Keeps Dark (modify (mark_failed e))
unfolding modify mark_failed intent
mark_failed-Dark e = record {
  at = λ w. record {
    intent_kept = mark_failed-intent w.comp;
    dark = λ n. subst NoneReady (sym (mark_failed-endpoints w.comp)) (set_endpoints-NoneReady _);
    lawful = λ n h. h;
  };
}
  where
    mark_failed-intent : (c : Composition) → intent (mark_failed e c) ≡ intent c
    mark_failed-intent c = ground arith

    mark_failed-endpoints :
        (c : Composition) → (mark_failed e c).endpoints ≡ set_endpoints false c.endpoints
    mark_failed-endpoints c = ground arith

module _ (o : Oracle) (cfg : Config) where
  back_off-Held : Keeps (Calm held) (Failure.back_off o)
  unfolding Failure.back_off held
  back_off-Held = search (held_rules, held-modify, held-ask, tt) depth 9

  failure-Dark : (e : Err) → Keeps Dark (failure o e)
  unfolding failure
  failure-Dark e = Dark-bind _ _ (mark_failed-Dark e) (λ _. Dark-held _ back_off-Held)

  pending_routes-Held : (e : Option Err) → Keeps (Calm held) (pending_routes o cfg e)
  unfolding pending_routes held Failure.timed_out Failure.await_routes Failure.await_baseline
  pending_routes-Held none = search held_rules
  pending_routes-Held (some e) = search (held_rules, held-modify) depth 12

module _ (p : Platform) (o : Oracle) (cfg : Config) where
  reschedule-Held : (b : Bool) → Keeps (Calm held) (Cycle.reschedule p o cfg b)
  unfolding Cycle.reschedule Cycle.keep_schedule held
  reschedule-Held true = search (held_rules, held-modify) depth 9
  reschedule-Held false = search (held_rules, held-modify) depth 9

  settle-Dark : (b : Bool) (e : Option Err) → Keeps Dark (Cycle.settle p o cfg b e)
  unfolding Cycle.settle
  settle-Dark b (some e) = failure-Dark o cfg e
  settle-Dark b none = Dark-held _ (search (held_rules, reschedule-Held))

  unless_stale-Held : (r : Res (Unit {0})) → Keeps (Calm held) (Cycle.unless_stale r)
  unless_stale-Held (ok _) = search held_rules
  unless_stale-Held (failed e) = search held_rules

  publish_observation-Held : Keeps (Calm held) (Cycle.publish_observation p o cfg)
  unfolding Cycle.publish_observation
  publish_observation-Held = search (held_rules, unless_stale-Held)

  finish_cycle-Dark : (b : Bool) (e : Option Err) → Keeps Dark (Cycle.finish_cycle p o cfg b e)
  unfolding Cycle.finish_cycle held
  finish_cycle-Dark b e = Dark-bind _ _ (Dark-held _ (held-ask _ _ (λ h. tt))) λ _.
      Dark-bind _ _ (Dark-held _ (Keeps-wrap _ _ (held-ask _ _ (λ h. tt)))) λ _.
        Dark-bind _ _ (Dark-held _ (pending_routes-Held o cfg e)) λ left.
          Dark-bind _ _ (settle-Dark b left) λ _.
            Dark-bind _ _ (Dark-held _ (held-modify Cycle.observe_generation (λ c. refl)))
              λ _. Dark-held _ publish_observation-Held

  report_ready : Keeps Steady (modify Cycle.observe_generation >> Cycle.publish_observation p o cfg)
  unfolding Cycle.publish_observation ◌>>=◌ modify catch persist ask pure fail intent
  report_ready = record { at = λ w. report w (o.save w.history (Cycle.observe_generation w.comp)) }
    where
      report :
          (w : Worker) (r : Res (Unit {0}))
          → Steady w
              (Cycle.unless_stale r (record w {
                comp = Cycle.observe_generation w.comp;
                history =
                    record { request = save (Cycle.observe_generation w.comp); succeeded = is_ok r }
                    ∷ w.history;
              })).1
      report w (ok _) = record {
        intent_kept = refl;
        bright = λ b. record { phase = b.phase; level = b.level };
        lawful = λ b h. (inr (record { phase = b.phase; generation = refl; level = b.level }), h);
      }
      report w (failed e) = settled (is_stale e)
        where
          settled :
              (stale : Bool)
              → Steady w
                  ((if stale then pure tt else fail (wrapped "save composition observation" e))
                    (record w {
                      comp = Cycle.observe_generation w.comp;
                      history =
                          record {
                            request = save (Cycle.observe_generation w.comp);
                            succeeded = false;
                          }
                          ∷ w.history;
                    })).1
          settled true = record {
            intent_kept = refl;
            bright = λ b. record { phase = b.phase; level = b.level };
            lawful =
                λ b h. (inr (record { phase = b.phase; generation = refl; level = b.level }), h);
          }
          settled false = record {
            intent_kept = refl;
            bright = λ b. record { phase = b.phase; level = b.level };
            lawful =
                λ b h. (inr (record { phase = b.phase; generation = refl; level = b.level }), h);
          }

  reschedule-Steady : (b : Bool) → Keeps Steady (Cycle.reschedule p o cfg b)
  unfolding Cycle.reschedule Cycle.keep_schedule
  reschedule-Steady true = search steady_rules depth 9
  reschedule-Steady false = search steady_rules depth 9

  settle-Steady : (b : Bool) → Keeps Steady (Cycle.settle p o cfg b none)
  unfolding Cycle.settle
  settle-Steady b = search (steady_rules, reschedule-Steady)

  -- A cycle whose step returned no error ends with the composition as the step left it.
  finish_ready : (b : Bool) → Keeps Steady (Cycle.finish_cycle p o cfg b none)
  unfolding Cycle.finish_cycle pending_routes
  finish_ready b = Steady-bind _ _ (Steady-ask _ _ (λ h. tt)) λ _.
      Steady-bind _ _ (Keeps-wrap _ _ (Steady-ask _ _ (λ h. tt)))
        λ _. bind_none _ (Steady-bind _ _ (settle-Steady b) (λ _. report_ready))

-- What a cycle is allowed to do.
pub record CycleOutcome (w w' : Worker) : Type 0 where
  pub intent_kept : intent w'.comp ≡ intent w.comp
  pub lawful : AllLawful w.history → AllLawful w'.history

pub CycleOutcome-IsTrail : IsTrail CycleOutcome
CycleOutcome-IsTrail = record {
  stay = λ w. record { intent_kept = refl; lawful = λ h. h };
  follow = λ u v w p q. record {
    intent_kept = q.intent_kept ∙ p.intent_kept;
    lawful = λ h. q.lawful (p.lawful h);
  };
}

cycle-ask :
    {B : Type 0} (q : Request) (a : History → Res B)
    → ((h : History) → IsLawful q h)
    → Keeps CycleOutcome (ask q a)
unfolding ask
cycle-ask q a l = record { at = λ w. record { intent_kept = refl; lawful = λ h. (l w.history, h) } }

cycle-clock : (o : Oracle) → Keeps CycleOutcome (clock o)
unfolding clock
cycle-clock o = cycle-ask _ _ (λ h. tt)

module _ (p : Platform) (o : Oracle) (cfg : Config) where
  after_dark :
      (u : Worker) (r : Res (Unit {0}) × Worker) (b : Bool) (e : Option Err)
      → StepOutcome o u r
      → NoneReady r.1.comp.endpoints
      → CycleOutcome u (Cycle.finish_cycle p o cfg b e r.1).1
  after_dark u r b e s n =
      let d = (finish_cycle-Dark p o cfg b e).at r.1 in
      record { intent_kept = d.intent_kept ∙ s.intent_kept; lawful = λ h. d.lawful n (s.lawful h) }

  after_ready :
      (u : Worker) (r : Res (Unit {0}) × Worker) (b : Bool)
      → StepOutcome o u r
      → Delivered o u r
      → CycleOutcome u (Cycle.finish_cycle p o cfg b none r.1).1
  after_ready u r b s d =
      let f = (finish_ready p o cfg b).at r.1 in
      record {
        intent_kept = f.intent_kept ∙ s.intent_kept;
        lawful = λ h. f.lawful (record { phase = d.phase; level = d.level }) (s.lawful h);
      }

  after_step :
      (u : Worker) (b : Bool) (r : Res (Unit {0})) (v : Worker)
      → StepOutcome o u (r, v)
      → CycleOutcome u
          ((if Cycle.is_stale_result p o cfg r
              then pure tt
              else Cycle.finish_cycle p o cfg b (Cycle.error_of p o cfg r))
            v).1
  unfolding pure
  after_step u b (ok x) v s = elim s.readiness [
    | inl n ↦ after_dark u (ok x, v) b none s n.endpoints
    | inr d ↦ after_ready u (ok x, v) b s d
  ]
  after_step u b (failed e) v s = elim s.readiness [
    | inl n ↦ after_failure (is_stale e) n.endpoints
    | inr d ↦ absurd (failed≢ok d.returned)
  ]
    where
      failed≢ok : failed e ≡ ok tt → ⊥
      failed≢ok q = cc

      after_failure :
          (stale : Bool)
          → NoneReady v.comp.endpoints
          → CycleOutcome u ((if stale then pure tt else Cycle.finish_cycle p o cfg b (some e)) v).1
      after_failure true n = record { intent_kept = s.intent_kept; lawful = s.lawful }
      after_failure false n = after_dark u (failed e, v) b (some e) s n

  run_step-CycleOutcome :
      (b : Bool)
      → Keeps CycleOutcome (
          catch (step p o cfg) >>= λ r.
          if Cycle.is_stale_result p o cfg r
          then pure tt
          else Cycle.finish_cycle p o cfg b (Cycle.error_of p o cfg r))
  unfolding ◌>>=◌ catch
  run_step-CycleOutcome b = record {
    at = λ w. let (r, v) = step p o cfg w in after_step w b r v (step-StepOutcome p o cfg w);
  }

  cycle-bind :
      {A B : Type 0} (m : M A) (f : A → M B)
      → Keeps CycleOutcome m
      → ((a : A) → Keeps CycleOutcome (f a))
      → Keeps CycleOutcome (m >>= f)
  cycle-bind = Keeps-bind CycleOutcome-IsTrail

  run_cycle-CycleOutcome : (b : Bool) → Keeps CycleOutcome (Cycle.run_cycle p o cfg b)
  unfolding Cycle.run_cycle
  run_cycle-CycleOutcome b =
      cycle-bind _ _ (Keeps-wrap _ _ (cycle-ask _ _ (λ h. tt))) (λ _. run_step-CycleOutcome b)

  reconcile-Keeps : (b : Bool) → Keeps CycleOutcome (Cycle.reconcile p o cfg b)
  unfolding Cycle.reconcile
  reconcile-Keeps b = cycle-bind _ _ (cycle-ask _ _ (λ h. tt)) λ _.
      cycle-bind _ _ (cycle-clock o) λ now.
        cycle-bind _ _ (Keeps-gets CycleOutcome-IsTrail (Cycle.is_too_early b now)) λ early.
          Keeps-if early _ _ (Keeps-pure CycleOutcome-IsTrail tt) (run_cycle-CycleOutcome b)

  -- One cycle keeps the desired state of the composition, and makes only lawful calls.
  pub reconcile-CycleOutcome :
      (b : Bool) (w : Worker) → CycleOutcome w (Cycle.reconcile p o cfg b w).1
  reconcile-CycleOutcome b w = (reconcile-Keeps b).at w
