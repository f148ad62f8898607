-- ===== src/Reconciler/Cycle.antt =====
-- internal/reconciler/reconciler.go: `reconcile`, `publishObservation` and `Tick`. What is logged
-- is left out, and so is the time limit of thirty seconds on a step, which an answer of the
-- providers can stand for.
use envy.Common.{
  ◌+◌, Bool, true, false, not, ◌&&◌, ◌||◌, Option, none, some, List, [], ◌∷◌, if◌then◌else◌, ltb,
  holds,
}
use envy.Model.{Composition, Phase, Phase-discrete, Platform, Err, is_stale, wrapped, Time}
use envy.Reconciler.Effects.{
  M, Oracle, Config, Res, ok, failed, ask, catch, pure, fail, gets, modify, wrap, clock, persist,
  ◌>>=◌, ◌>>◌, check_context, check_guard, read_active, expire,
}
use envy.Reconciler.Failure.{failure, pending_routes, schedule, seconds}
use envy.Reconciler.Step.{step}

abbrev pub observe_generation : Composition → Composition
observe_generation c = record c { observed_generation = c.generation }

-- `NextAttemptAt.After(now)`, and the event does not come in its stead.
abbrev pub is_too_early : Bool → Time → Composition → Bool
is_too_early event now c =
    ltb now c.runtime.next_attempt_at && (not event || ltb 0 c.runtime.attempts)

-- An error of the save that says that the desired state has changed is none.
abbrev pub unless_stale : Res (Unit {0}) → M (Unit {0})
unless_stale (ok _) = pure tt
unless_stale (failed e) =
    if is_stale e then pure tt else fail (wrapped "save composition observation" e)

module _ (p : Platform) (o : Oracle) (cfg : Config) where
  unfoldable pub publish_observation : M (Unit {0})
  publish_observation = do r ← catch (persist o); unless_stale r

  -- `NextAttemptAt`, unless it lies ahead already.
  unfoldable pub keep_schedule : M (Unit {0})
  keep_schedule = do
    now ← clock o
    next ← gets (λ c. c.runtime.next_attempt_at)
    (if ltb now next
        then pure tt
        else (clock o >>= λ later. modify (schedule (later + cfg.interval))))

  unfoldable pub reschedule : Bool → M (Unit {0})
  reschedule true = do now ← clock o; modify (schedule (now + seconds 30))
  reschedule false = keep_schedule

  -- The `switch` on the error that is left.
  unfoldable pub settle : Bool → Option Err → M (Unit {0})
  settle event (some e) = failure o e
  settle event none = do
    ready ← gets (λ c. holds (Phase-discrete c.phase Phase.ready))
    reschedule (event && ready)

  unfoldable pub finish_cycle : Bool → Option Err → M (Unit {0})
  finish_cycle event error = do
    ask check_context o.context
    wrap "leadership lost" (ask check_guard o.guard)
    left ← pending_routes o cfg error
    settle event left
    modify observe_generation
    publish_observation

  abbrev pub error_of : Res (Unit {0}) → Option Err
  error_of (ok _) = none
  error_of (failed e) = some e

  abbrev pub is_stale_result : Res (Unit {0}) → Bool
  is_stale_result (ok _) = false
  is_stale_result (failed e) = is_stale e

  unfoldable pub run_cycle : Bool → M (Unit {0})
  run_cycle event = do
    wrap "check leadership" (ask check_guard o.guard)
    r ← catch (step p o cfg)
    (if is_stale_result r then pure tt else finish_cycle event (error_of r))

  unfoldable pub reconcile : Bool → M (Unit {0})
  reconcile event = do
    ask check_context o.context
    now ← clock o
    early ← gets (is_too_early event now)
    (if early then pure tt else run_cycle event)

  unfoldable pub reconcile_all : List Composition → M (Unit {0})
  reconcile_all [] = pure tt
  reconcile_all (c ∷ cs) = do modify (λ _. c); reconcile false; reconcile_all cs

  unfoldable pub scan : M (Unit {0})
  scan = do
    wrap "check leadership" (ask check_guard o.guard)
    now ← clock o
    wrap "persist expirations" (ask (expire now) (λ h. o.expire h now))
    compositions ← wrap "scan desired compositions" (ask read_active o.active)
    reconcile_all compositions

  -- A scan starts with nothing applied, and forgets what it applied.
  unfoldable pub tick : M (Unit {0})
  tick w =
      let (r, w') = scan (record w { route_cycle = some none }) in
      (r, record w' { route_cycle = none })
