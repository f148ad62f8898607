-- ===== src/Reconciler/Failure.antt =====
-- internal/reconciler/reconciler.go: `setReady`, `failure` and `pendingRoutes`.
pub mod Backoff
use Prim.Native.String.{slice}
use envy.Common.{
  ℕ, ◌+◌, ◌-◌, ◌*◌, ◌/◌, ◌^◌, min, String, Bool, true, false, Option, none, some, List, [], ◌∷◌,
  Map, if◌then◌else◌, str_eq, leb, ltb, ◌==◌, len,
}
use envy.Model.{
  Composition, Endpoint, Condition, Phase, Err, Error, error_text, reconciliation_code,
  is_baseline_pending, is_routes_pending, Time,
}
use envy.Reconciler.Effects.{
  M, Oracle, Config, ok, ask, pure, gets, modify, clock, draw, ◌>>=◌, ◌>>◌,
}

-- The loop over the endpoints.
abbrev pub set_endpoints : Bool → Map Endpoint → Map Endpoint
set_endpoints ready [] = []
set_endpoints ready ((k, e) ∷ m) = (k, record e { ready = ready }) ∷ set_endpoints ready m

unfoldable pub set_ready : Bool → Composition → Composition
set_ready ready c = record c {
  verification_level = if ready then c.verification_level else "none";
  endpoints = set_endpoints ready c.endpoints;
}

abbrev pub set_operation : String → Option Error → Composition → Composition
set_operation status error c = record c {
  latest_operation = record (c.latest_operation) { status = status; error = error };
}

-- The message, cut to 1000 bytes.
abbrev pub bounded : String → String
bounded m = if ltb 1000 (len m) then slice m 0 1000 else m

-- The error that is stored.
unfoldable pub stored_error : Composition → Err → Error
stored_error c e = record {
  code = elim (reconciliation_code e) [ none ↦ "reconciliation_failed" | some code ↦ code ];
  message = bounded (error_text e);
  retryable = true;
  project = "";
  composition = c.id;
}

abbrev pub seconds : ℕ → ℕ
seconds n = n * 1_000_000_000

-- `time.Second << min(attempts-1, 5)`, for the number of attempts after the increment.
unfoldable pub backoff : ℕ → ℕ
backoff attempts = seconds (2 ^ min (attempts - 1) 5)

-- What `failure` changes but for the next attempt.
unfoldable pub mark_failed : Err → Composition → Composition
unfolding set_ready stored_error
mark_failed e c =
    let phased = if c.deletion_requested then c else record c { phase = Phase.failed } in
    let error = stored_error c e in
    let noted = record (set_ready false phased) { last_error = some error } in
    let counted = record noted {
      runtime = record (noted.runtime) { attempts = noted.runtime.attempts + 1 };
    } in
    if str_eq c.latest_operation.status "succeeded"
    then counted
    else set_operation "failed" (some error) counted

abbrev pub schedule : Time → Composition → Composition
schedule t c = record c { runtime = record (c.runtime) { next_attempt_at = t } }

module _ (o : Oracle) where
  -- Capped backoff with jitter.
  unfoldable pub back_off : M (Unit {0})
  unfolding clock modify backoff gets ask ◌>>=◌
  back_off = do
    attempts ← gets (λ c. c.runtime.attempts)
    let delay = backoff attempts
    jitter ← ask (draw (delay / 4 + 1)) (λ h. ok (o.random h (delay / 4 + 1)))
    now ← clock o
    modify (schedule (now + min (delay + jitter) (seconds 30)))

  unfoldable pub failure : Err → M (Unit {0})
  unfolding mark_failed back_off
  failure e = modify (mark_failed e) >> back_off

-- `started` of `pendingRoutes` and `startedAt` of `step`.
unfoldable pub started_at : Composition → Time
started_at c =
    if c.runtime.provision_started_at == 0 then c.created_at else c.runtime.provision_started_at

abbrev pub waiting_condition : String → String → Condition
waiting_condition kind message = record { kind = kind; status = false; message = message }

-- The conditions while the baseline cannot be observed.
unfoldable pub await_baseline : Err → Composition → Composition
await_baseline e c = record c {
  last_error = none;
  conditions =
      waiting_condition "WorkloadsReady" "waiting for baseline observation"
      ∷ waiting_condition "RoutesConfigured" "routing state is not current"
      ∷ waiting_condition "RouteVerified" "prior verification is not current"
      ∷ waiting_condition "BaselineObserved" (error_text e)
      ∷ [];
}

-- `c.Conditions[1]`, if there are two.
abbrev set_second : String → List Condition → List Condition
set_second message [] = []
set_second message (a ∷ rest) = elim rest [
  | [] ↦ a ∷ []
  | b ∷ cs ↦ a ∷ record b { status = false; message = message } ∷ cs
]

unfoldable pub await_routes : Err → Composition → Composition
await_routes e c = record c {
  last_error = none;
  conditions = set_second (error_text e) c.conditions;
}

module _ (o : Oracle) (cfg : Config) where
  -- Whether the time for provisioning is over, by the clock now.
  unfoldable pub timed_out : Time → M Bool
  unfolding clock ◌>>=◌
  timed_out started = do now ← clock o; pure (leb (started + cfg.provision_timeout) now)

  -- An error that only says that routes are not accepted yet.
  abbrev pub pending_accepted : Err → Composition → M (Option Err)
  pending_accepted e c = do
    late ← (if c.deletion_requested then pure false else timed_out (started_at c))
    if late then pure (some e) else (modify (await_routes e) >>= λ _. pure none)

  -- The error that is left of that of a step, `none` if it only says to wait.
  unfoldable pub pending_routes : Option Err → M (Option Err)
  unfolding modify gets timed_out await_routes await_baseline started_at ◌>>=◌
  pending_routes none = pure none
  pending_routes (some e) =
      if is_baseline_pending e
      then (modify (await_baseline e) >>= λ _. pure none)
      else if is_routes_pending e
      then (gets (λ c. c) >>= pending_accepted e)
      else pure (some e)
