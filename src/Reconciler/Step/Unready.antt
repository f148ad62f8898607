-- ===== src/Reconciler/Step/Unready.antt =====
-- internal/reconciler/reconciler.go: `step` once every component was asked for, where some are not
-- ready or no route is needed.
use envy.Common.{
  ℕ, ◌+◌, String, Bool, true, false, not, ◌&&◌, ◌||◌, none, List, [], ◌∷◌, if◌then◌else◌, ◌<>◌, set,
  update_at, join, is_empty,
}
use envy.Model.{Composition, Condition, Phase, Err, plain, joined, Time}
use envy.Reconciler.Effects.{M, Oracle, Config, pure, fail, gets, modify, clock, ◌>>=◌, ◌>>◌}
use envy.Reconciler.Failure.{set_operation, schedule, timed_out}
use envy.Reconciler.Step.Workloads.{Progress}
use envy.Reconciler.Step.Retire.{retire_endpoint_free}

abbrev pub passed_condition : String → String → Condition
passed_condition kind message = record { kind = kind; status = true; message = message }

abbrev pub set_condition : ℕ → Condition → Composition → Composition
set_condition i x c = record c { conditions = set c.conditions i x }

-- `c.Conditions[1].Status = true`
abbrev pub mark_routed : Composition → Composition
mark_routed c = record c { conditions = update_at c.conditions 1 (λ x. record x { status = true }) }

abbrev pub reset_attempts : Composition → Composition
reset_attempts c = record c { runtime = record (c.runtime) { attempts = 0 } }

abbrev pub clear_error : Composition → Composition
clear_error c = record c { last_error = none }

abbrev pub workloads_condition : Progress → Condition
workloads_condition g = record {
  kind = "WorkloadsReady";
  status = g.all_ready;
  message = join "; " g.messages;
}

-- `errors.Join` of the failures.
abbrev pub join_errors : Err → List Err → Err
join_errors e [] = e
join_errors e (f ∷ fs) = joined e (join_errors f fs)

-- All that is not ready is suspended on purpose.
abbrev pub is_suspended : Progress → Bool
is_suspended g = g.any_suspended && not g.waiting_for_other && not g.failed && is_empty g.failures

unfoldable pub mark_suspended : Composition → Composition
mark_suspended c = set_operation "succeeded" none (
    clear_error (
      set_condition 2
        (passed_condition "RouteVerified" "schedule remains suspended pending an execution gate")
        (set_condition 1 (passed_condition "RoutesConfigured" "no endpoint routes required")
          (record c { phase = Phase.suspended; verification_level = "none" }))))

-- The end of a step without endpoints, `completed` if every workload has finished.
unfoldable pub mark_endpoint_free : Bool → Composition → Composition
mark_endpoint_free completed c = reset_attempts (
    set_operation "succeeded" none (
      clear_error (
        set_condition 2 (passed_condition "RouteVerified" "no endpoint routes required") (
          set_condition 1 (passed_condition "RoutesConfigured" "no endpoint routes required")
            (record c {
              phase = if completed then Phase.completed else Phase.ready;
              verification_level = "none";
            })))))

module _ (o : Oracle) (cfg : Config) where
  -- `c.Runtime.NextAttemptAt = r.now().Add(r.cfg.Interval)`
  unfoldable pub schedule_next : M (Unit {0})
  schedule_next = do now ← clock o; modify (schedule (now + cfg.interval))

  unfoldable pub suspend : M (Unit {0})
  suspend = modify mark_suspended >> schedule_next

  abbrev pub not_ready : Progress → Err
  not_ready g = plain ("components are not ready: " <> join "; " g.messages)

  unfoldable pub wait_for_workloads : Progress → Bool → M (Unit {0})
  wait_for_workloads g late =
      if g.failed || late then fail (not_ready g) else modify (λ c. reset_attempts (clear_error c))

  unfoldable pub judge_failures : Progress → Time → List Err → M (Unit {0})
  judge_failures g started (e ∷ es) = fail (join_errors e es)
  judge_failures g started [] = do late ← timed_out o cfg started; wait_for_workloads g late

  -- Published routes are kept also while a workload is not ready.
  unfoldable pub keep_routes : M (Unit {0}) → M (Unit {0})
  keep_routes sync = do
    active ← gets (λ c. c.runtime.routing_active)
    (if active then sync >> modify mark_routed else pure tt)

  unfoldable pub conclude_unready : M (Unit {0}) → Progress → Time → M (Unit {0})
  conclude_unready sync g started =
      if is_suspended g then suspend else (keep_routes sync >> judge_failures g started g.failures)

  unfoldable pub settle_endpoint_free : Bool → Bool → M (Unit {0})
  settle_endpoint_free completed true = modify (mark_endpoint_free completed) >> schedule_next
  settle_endpoint_free completed false = pure tt

  unfoldable pub conclude_endpoint_free : Progress → M (Unit {0})
  conclude_endpoint_free g = do
    settled ← retire_endpoint_free o
    settle_endpoint_free g.all_completed settled
