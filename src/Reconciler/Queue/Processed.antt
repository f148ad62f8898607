-- ===== src/Reconciler/Queue/Processed.antt =====
-- internal/reconciler/queue.go: what a worker does for a routing key, and when it is due again.
use envy.Common.{◌≡◌, refl, ◌≤◌, min, max, ◌-◌, true, List, [], ◌∷◌, Option, none, some, arith}
use envy.Model.{Composition, Platform, Time, Err}
use envy.Reconciler.Effects.{
  M, Oracle, Config, Worker, History, Res, ok, failed, is_ok, read_domain, ask, modify, continue,
  ◌>>=◌,
}
use envy.Reconciler.Keeps.{Keeps, AllLawful, Keeps-bind, Keeps-pure}
use envy.Reconciler.Failure.{seconds}
use envy.Reconciler.Ready.Scans.{Lawful, Lawful-IsTrail}
use envy.Reconciler.Ready.Cycles.{reconcile-CycleOutcome}
use envy.Reconciler.Queue.{
  RoutingKey, QueueCall, add_after, add_rate_limited, forget, done, reconcile_rows, ask_domain,
  least_delay, delay_of, next_delay, reconcile_domain, conclude_key, process,
}

module _ (p : Platform) (o : Oracle) (cfg : Config) where
  least_delay_bounds :
      (h : History) (delay : Time) (cs : List Composition)
      → min cfg.interval delay ≤ least_delay p o cfg h delay cs
        × (least_delay p o cfg h delay cs ≤ delay)
  least_delay_bounds h delay [] = (omega arith, omega arith)
  least_delay_bounds h delay (c ∷ cs) =
      let next = min (max (c.runtime.next_attempt_at - o.wall_clock h c) cfg.interval) delay in
      let (a, b) = least_delay_bounds h next cs in (ground arith, ground arith)

  -- The compositions that the store returned of a domain when it was last asked.
  pub record LastRead (k : RoutingKey) (rows : List Composition) (w : Worker) : Type 0 where
    pub before : History
    pub asked :
        w.history ≡ record { request = read_domain k.project k.baseline; succeeded = true } ∷ before
    pub answered : o.active_domain before k.project k.baseline ≡ ok rows

  -- What the loop of a worker returned: an error; nothing, where the store at last returned no
  -- composition; or a delay within bounds, where it returned one or more.
  pub data IsOutcome (k : RoutingKey) (w : Worker) : Res (Option Time) → Type 0 where
    erred : (e : Err) → IsOutcome k w (failed e)
    none_left : LastRead k [] w → IsOutcome k w (ok none)
    some_left :
        (c : Composition) (cs : List Composition) (delay : Time)
        → LastRead k (c ∷ cs) w
        → min cfg.interval (seconds 30) ≤ delay
        → delay ≤ seconds 30
        → IsOutcome k w (ok (some delay))

  -- What the queue is told of a key, the latest first, by what the loop returned.
  pub data IsConcluded (k : RoutingKey) : Res (Option Time) → List QueueCall → Type 0 where
    retried : (e : Err) → IsConcluded k (failed e) (done k ∷ add_rate_limited k ∷ [])
    at_rest : IsConcluded k (ok none) (done k ∷ forget k ∷ [])
    put_off :
        (delay : Time)
        → IsConcluded k (ok (some delay)) (done k ∷ forget k ∷ add_after k delay ∷ [])

  conclude_key-IsConcluded :
      (k : RoutingKey) (r : Res (Option Time)) → IsConcluded k r (conclude_key p o cfg k r)
  conclude_key-IsConcluded k (failed e) = retried e
  conclude_key-IsConcluded k (ok none) = at_rest
  conclude_key-IsConcluded k (ok (some d)) = put_off d

  reconcile_rows-Lawful : (cs : List Composition) → Keeps Lawful (reconcile_rows p o cfg cs)
  unfolding reconcile_rows modify
  reconcile_rows-Lawful [] = Keeps-pure Lawful-IsTrail tt
  reconcile_rows-Lawful (c ∷ cs) =
      Keeps-bind Lawful-IsTrail _ _ (record { at = λ w. record { lawful = λ h. h } })
        λ _.
          Keeps-bind Lawful-IsTrail _ _
            (record {
              at = λ w. record { lawful = (reconcile-CycleOutcome p o cfg true w).lawful };
            })
            (λ _. reconcile_rows-Lawful cs)

  ask_domain-Lawful : (k : RoutingKey) → Keeps Lawful (ask_domain p o cfg k)
  unfolding ask_domain ask
  ask_domain-Lawful k = record { at = λ w. record { lawful = λ h. (tt, h) } }

  reconcile_domain-Lawful : (k : RoutingKey) → Keeps Lawful (reconcile_domain p o cfg k)
  unfolding reconcile_domain next_delay
  reconcile_domain-Lawful k = Keeps-bind Lawful-IsTrail _ _ (ask_domain-Lawful k) (λ rows.
      Keeps-bind Lawful-IsTrail _ _ (reconcile_rows-Lawful rows) (λ _.
        Keeps-bind Lawful-IsTrail _ _ (ask_domain-Lawful k)
          (λ left. record { at = λ w. record { lawful = λ h. h } })))

  delay_of-IsOutcome :
      (k : RoutingKey) (rows : List Composition) (w : Worker)
      → LastRead k rows w
      → IsOutcome k w (ok (delay_of p o cfg rows w.history))
  delay_of-IsOutcome k [] w read = none_left read
  delay_of-IsOutcome k (c ∷ cs) w read =
      let (lo, hi) = least_delay_bounds w.history (seconds 30) (c ∷ cs) in
      some_left c cs _ read lo hi

  -- The loop ends with the outcome of what it does at last.
  abbrev Concludes : RoutingKey → M (Option Time) → Type 0
  Concludes k m = (w : Worker) → IsOutcome k (m w).1 (m w).0

  bind-Concludes :
      {A : Type 0} (k : RoutingKey) (m : M A) (f : A → M (Option Time))
      → ((a : A) → Concludes k (f a))
      → Concludes k (m >>= f)
  unfolding ◌>>=◌
  bind-Concludes k m f kf w = continued (m w).0 (m w).1
    where
      continued : (r : Res _) (v : Worker) → IsOutcome k (continue r f v).1 (continue r f v).0
      continued (ok a) v = kf a v
      continued (failed e) v = erred e

  last_read-Concludes : (k : RoutingKey) → Concludes k (ask_domain p o cfg k >>= next_delay p o cfg)
  unfolding ◌>>=◌ ask_domain ask next_delay
  last_read-Concludes k w = answered (o.active_domain w.history k.project k.baseline) refl
    where
      answered :
          (r : Res (List Composition))
          → o.active_domain w.history k.project k.baseline ≡ r
          → let v = record w {
            history =
                record { request = read_domain k.project k.baseline; succeeded = is_ok r }
                ∷ w.history;
          } in
            IsOutcome k (continue r (next_delay p o cfg) v).1 (continue r (next_delay p o cfg) v).0
      answered (ok rows) e =
          delay_of-IsOutcome k rows _ (record { before = w.history; asked = refl; answered = e })
      answered (failed x) e = erred x

  reconcile_domain-Concludes : (k : RoutingKey) → Concludes k (reconcile_domain p o cfg k)
  unfolding reconcile_domain
  reconcile_domain-Concludes k =
      bind-Concludes k _ _ λ rows. bind-Concludes k _ _ λ _. last_read-Concludes k

  pub record IsProcessed (k : RoutingKey) (w : Worker) (r : List QueueCall × Worker) : Type 0 where
    pub lawful : AllLawful r.1.history
    pub outcome : Res (Option Time)
    pub returned : reconcile_domain p o cfg k (record w { route_cycle = none }) ≡ (outcome, r.1)
    pub ended : IsOutcome k r.1 outcome
    pub concluded : IsConcluded k outcome r.0

  -- After lawful calls, a worker makes lawful calls for a routing key, and the queue is told of the
  -- key by what the loop over its compositions returned: after an error it is to be retried; where
  -- the store at last returned no composition it is forgotten; and where it returned some it is
  -- forgotten and due again after a delay of at most thirty seconds and no less than the interval or
  -- that. At last the queue is told that the key is done.
  pub process-IsProcessed :
      (k : RoutingKey) (w : Worker) → AllLawful w.history → IsProcessed k w (process p o cfg k w)
  unfolding process
  process-IsProcessed k w before =
      let w' = record w { route_cycle = none } in
      record {
        lawful = ((reconcile_domain-Lawful k).at w').lawful before;
        outcome = (reconcile_domain p o cfg k w').0;
        returned = refl;
        ended = reconcile_domain-Concludes k w';
        concluded = conclude_key-IsConcluded k _;
      }
