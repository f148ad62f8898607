-- ===== src/Reconciler/Failure/Backoff.antt =====
-- internal/reconciler/reconciler.go: what `failure` stores, and when it lets the next attempt start.
use envy.Common.{
  zero, sym, subst, ◌∙◌, ap, if◌then◌else◌, ℕ, suc, ◌+◌, ◌-◌, ◌*◌, ◌/◌, ◌≤◌, ◌<◌, min, ◌≡◌, refl,
  false, some, arith,
}
use envy.Model.{Composition, Phase, Err, Time}
use envy.Reconciler.Intent.{NoneReady, set_endpoints-NoneReady, intent}
use envy.Reconciler.Effects.{Oracle, Worker, History, gets, modify, ask, clock, ◌>>=◌}
use envy.Reconciler.Failure.{
  failure, mark_failed, back_off, backoff, seconds, schedule, stored_error, set_ready,
  set_endpoints,
}

-- The delay starts at a second, doubles with each attempt, and stays at 32 seconds.
pub backoff-doubles : (n : ℕ) → n < 5 → backoff (n + 2) ≡ 2 * backoff (n + 1)
unfolding backoff
backoff-doubles zero h = refl
backoff-doubles (suc zero) h = refl
backoff-doubles (suc (suc zero)) h = refl
backoff-doubles (suc (suc (suc zero))) h = refl
backoff-doubles (suc (suc (suc (suc zero)))) h = refl
backoff-doubles (suc (suc (suc (suc (suc n))))) h = omega arith

pub backoff-settles : (n : ℕ) → 5 ≤ n → backoff (n + 1) ≡ seconds 32
unfolding backoff
backoff-settles n h = rw (capped n h)
  where
    capped : (n : ℕ) → 5 ≤ n → min (n + 1 - 1) 5 ≡ 5
    capped n h = omega arith

-- What a failed attempt leaves behind.
pub record IsFailed (o : Oracle) (e : Err) (c d : Composition) : Type 0 where
  pub phase : d.phase ≡ (if c.deletion_requested then c.phase else Phase.failed)
  pub desired : intent d ≡ intent c
  pub endpoints : NoneReady d.endpoints
  pub level : d.verification_level ≡ "none"
  pub error : d.last_error ≡ some (stored_error c e)
  pub attempts : d.runtime.attempts ≡ c.runtime.attempts + 1
  pub looked : History
  pub soonest :
      o.now looked + min (backoff (c.runtime.attempts + 1)) (seconds 30) ≤ d.runtime.next_attempt_at
  pub latest :
      d.runtime.next_attempt_at
      ≤ o.now looked
        + min (backoff (c.runtime.attempts + 1) + backoff (c.runtime.attempts + 1) / 4) (seconds 30)

module _ (e : Err) where
  marked-desired : (c : Composition) → intent (mark_failed e c) ≡ intent c
  unfolding mark_failed intent set_ready
  marked-desired c = ground arith

  marked-endpoints :
      (c : Composition) → (mark_failed e c).endpoints ≡ set_endpoints false c.endpoints
  unfolding mark_failed set_ready
  marked-endpoints c = ground arith

  marked-level : (c : Composition) → (mark_failed e c).verification_level ≡ "none"
  unfolding mark_failed set_ready
  marked-level c = ground arith

  marked-attempts : (c : Composition) → (mark_failed e c).runtime.attempts ≡ c.runtime.attempts + 1
  unfolding mark_failed set_ready
  marked-attempts c = ground arith

  marked-phase :
      (c : Composition)
      → (mark_failed e c).phase ≡ (if c.deletion_requested then c.phase else Phase.failed)
  unfolding mark_failed set_ready
  marked-phase c = ground arith

  -- Withdrawing the endpoints leaves the identity that the error names.
  marked-error : (c : Composition) → (mark_failed e c).last_error ≡ some (stored_error c e)
  unfolding mark_failed set_ready stored_error
  marked-error c = ground arith

delay_bounds :
    (now d j : ℕ)
    → j < d / 4 + 1
    → (now + min d (seconds 30) ≤ now + min (d + j) (seconds 30))
      × (now + min (d + j) (seconds 30) ≤ now + min (d + d / 4) (seconds 30))
delay_bounds now d j h = (omega arith, omega arith)

module _ (o : Oracle) (fair : (h : History) (n : ℕ) → 0 < n → o.random h n < n) where
  schedule-desired : (t : Time) (c : Composition) → intent (schedule t c) ≡ intent c
  unfolding intent
  schedule-desired t c = refl

  scheduled :
      (e : Err) (c m : Composition) (drawn looked : History) (d : ℕ)
      → m ≡ mark_failed e c
      → d ≡ backoff m.runtime.attempts
      → IsFailed o e c
          (schedule (o.now looked + min (d + o.random drawn (d / 4 + 1)) (seconds 30)) m)
  scheduled e c m drawn looked d marked delay =
      let one_more = ap (λ x. x.runtime.attempts) marked ∙ marked-attempts e c in
      let next = delay ∙ ap backoff one_more in
      let (low, high) =
        delay_bounds (o.now looked) d (o.random drawn (d / 4 + 1)) (fair drawn _ (omega arith)) in
      let t = o.now looked + min (d + o.random drawn (d / 4 + 1)) (seconds 30) in
      record {
        phase = ap (λ x. x.phase) marked ∙ marked-phase e c;
        desired = schedule-desired _ m ∙ ap intent marked ∙ marked-desired e c;
        endpoints =
            subst NoneReady (sym (ap (λ x. x.endpoints) marked ∙ marked-endpoints e c))
              (set_endpoints-NoneReady c.endpoints);
        level = ap (λ x. x.verification_level) marked ∙ marked-level e c;
        error = ap (λ x. x.last_error) marked ∙ marked-error e c;
        attempts = one_more;
        looked = looked;
        soonest = subst (λ x. o.now looked + min x (seconds 30) ≤ t) next low;
        latest = subst (λ x. t ≤ o.now looked + min (x + x / 4) (seconds 30)) next high;
      }

  -- A failed attempt withdraws all endpoints and keeps the desired state, stores the error, counts
  -- one attempt more, and puts off the next by the delay with up to a quarter of it added, at most
  -- thirty seconds; the phase is failed, but that of a composition that is being deleted is kept.
  -- The hypothesis is that a random number below a positive bound is below it.
  pub failure-IsFailed : (e : Err) (w : Worker) → IsFailed o e w.comp (failure o e w).1.comp
  unfolding failure back_off ◌>>=◌ modify gets ask clock
  failure-IsFailed e w = scheduled e w.comp (mark_failed e w.comp) _ _ _ refl refl
