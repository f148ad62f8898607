-- ===== src/Reconciler/Effects.antt =====
-- internal/reconciler/reconciler.go: what the reconciler asks of the store, the clock and its
-- providers. Each is code that runs elsewhere, so that a call is a request, and what it answers is
-- any function of the calls made before: an `Oracle`.

use envy.Common.{ℕ, String, Bool, true, false, Option, List, ◌∷◌, Map, is_some, not}
use envy.Model.{
  Composition, WorkloadSpec, WorkloadRef, WorkloadObservation, RouteSnapshot, RouteObservation,
  ResolvedPlan, Baseline, BaselineObservation, ComponentOverride, MessageSubscription, wrapped,
  VerificationProbe, VerificationHop, Err, Time,
}

pub record MessagingSpec : Type 0 where
  pub composition_id : String
  pub ownership_token : String
  pub subscriptions : List MessageSubscription

-- `verification.Result`
pub record VerificationResult : Type 0 where
  pub probes : List VerificationProbe
  pub composition : List VerificationHop

pub data Request : Type 0 where
  check_context : Request
  check_guard : Request
  read_clock : Request
  draw : ℕ → Request
  save : Composition → Request
  read_active : Request
  read_domain : String → String → Request
  expire : Time → Request
  ensure : WorkloadSpec → Request
  observe : WorkloadRef → Request
  delete_namespace : WorkloadRef → Request
  confirm_absent : WorkloadRef → Request
  delete_workload : WorkloadRef → Request
  confirm_workload_absent : WorkloadRef → Request
  apply_routes : RouteSnapshot → Request
  verify : String → String → Map String → ResolvedPlan → Request
  verify_absent : String → Request
  observe_baseline : Baseline → Map ComponentOverride → Request
  validate_messaging : Baseline → Request
  ensure_messaging : MessagingSpec → Request
  delete_messaging : MessagingSpec → Request

-- A call that was made, and whether it returned without an error.
pub record Call : Type 0 where
  pub request : Request
  pub succeeded : Bool

-- The calls made so far, the latest first.
abbrev pub History : Type 0
History = List Call

pub data Res (A : Type 0) : Type 0 where
  ok : A → Res A
  failed : Err → Res A

abbrev pub is_ok : {A : Type 0} → Res A → Bool
is_ok (ok _) = true
is_ok (failed _) = false

-- `domain.MessagingProvider`
pub record Messaging : Type 0 where
  pub validate : History → Baseline → Res (Unit {0})
  pub ensure : History → MessagingSpec → List MessageSubscription × Option Err
  pub delete : History → MessagingSpec → Res Bool

pub record Oracle : Type 0 where
  -- `ctx.Err()` and the leadership guard
  pub context : History → Res (Unit {0})
  pub guard : History → Res (Unit {0})
  pub now : History → Time
  -- `time.Now`, read once for each composition of a route snapshot
  pub wall_clock : History → Composition → Time
  -- `rand.Int64N`
  pub random : History → ℕ → ℕ
  pub save : History → Composition → Res (Unit {0})
  pub active : History → Res (List Composition)
  -- `ActiveDomain`: those of a project and a baseline
  pub active_domain : History → String → String → Res (List Composition)
  pub expire : History → Time → Res (Unit {0})
  pub ensure : History → WorkloadSpec → WorkloadRef × Option Err
  pub observe : History → WorkloadRef → WorkloadObservation × Option Err
  pub delete : History → WorkloadRef → Res (Unit {0})
  pub absent : History → WorkloadRef → Res Bool
  pub delete_workload : History → WorkloadRef → Res (Unit {0})
  pub workload_absent : History → WorkloadRef → Res Bool
  pub apply_routes : History → RouteSnapshot → Res RouteObservation
  pub verify :
      History → String → String → Map String → ResolvedPlan → VerificationResult × Option Err
  pub verify_absent : History → String → Res (Unit {0})
  -- nothing where the runtime does not observe baselines
  pub observe_baseline :
      Option (History → Baseline → Map ComponentOverride → BaselineObservation × Option Err)
  -- nothing where Pub/Sub is not configured
  pub messaging : Option Messaging

-- `Config`, as `New` completes it.
pub record Config : Type 0 where
  pub interval : ℕ
  pub provision_timeout : ℕ
  pub drain_timeout : ℕ

-- The composition that a cycle works on, the calls made, and `routeCycle`: nothing outside a scan,
-- and in a scan the snapshot that was applied last.
pub record Worker : Type 0 where
  pub comp : Composition
  pub history : History
  pub route_cycle : Option (Option RouteSnapshot)

abbrev pub M : Type 0 → Type 0
M A = Worker → Res A × Worker

abbrev pub continue : {A B : Type 0} → Res A → (A → M B) → M B
continue (ok a) f w = f a w
continue (failed e) f w = (failed e, w)

infixl 5 ◌>>=◌ ◌>>◌
unfoldable pub ◌>>=◌ : {A B : Type 0} → M A → (A → M B) → M B
◌>>=◌ m f w = let (r, w') = m w in continue r f w'

abbrev pub ◌>>◌ : {B : Type 0} → M (Unit {0}) → M B → M B
m >> k = m >>= λ _. k

unfoldable pub pure : {A : Type 0} → A → M A
pure a w = (ok a, w)

unfoldable pub fail : {A : Type 0} → Err → M A
fail e w = (failed e, w)

unfoldable pub gets : {A : Type 0} → (Composition → A) → M A
gets f w = (ok (f w.comp), w)

-- An assignment through the pointer to the composition.
unfoldable pub modify : (Composition → Composition) → M (Unit {0})
modify f w = (ok tt, record w { comp = f w.comp })

-- `if b { … }`
unfoldable pub when : Bool → M (Unit {0}) → M (Unit {0})
unfolding pure
when true m = m
when false m = pure tt

-- A call that returns a value or an error.
unfoldable pub ask : {A : Type 0} → Request → (History → Res A) → M A
ask q f w =
    let r = f w.history in
    (r, record w { history = record { request = q; succeeded = is_ok r } ∷ w.history })

-- A call that returns a value and, beside it, an error or none.
unfoldable pub ask_both : {A : Type 0} → Request → (History → A × Option Err) → M (A × Option Err)
ask_both q f w =
    let (a, e) = f w.history in
    (
      ok (a, e),
      record w { history = record { request = q; succeeded = not (is_some e) } ∷ w.history },
    )

-- The result of `m` as a value: Go code that handles an error itself.
unfoldable pub catch : {A : Type 0} → M A → M (Res A)
catch m w = let (r, w') = m w in (ok r, w')

abbrev pub wrap_result : {A : Type 0} → String → Res A → Res A
wrap_result prefix (ok a) = ok a
wrap_result prefix (failed e) = failed (wrapped prefix e)

-- `fmt.Errorf("prefix: %w", err)` on an error of `m`.
unfoldable pub wrap : {A : Type 0} → String → M A → M A
wrap prefix m w = let (r, w') = m w in (wrap_result prefix r, w')

-- A computed value or error.
unfoldable pub lift : {A : Type 0} → Res A → M A
lift r w = (r, w)

module _ (o : Oracle) where
  unfoldable pub clock : M Time
  unfolding ask
  clock = ask read_clock (λ h. ok (o.now h))

  unfoldable pub persist : M (Unit {0})
  unfolding ask
  persist w = ask (save w.comp) (λ h. o.save h w.comp) w
