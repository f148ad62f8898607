-- ===== src/Reconciler/Step/Workloads/Identity.antt =====
-- internal/reconciler/reconciler.go: the identity of an execution is durable before a Job is asked
-- for, and an active one is never replaced.
use envy.Common.{
  ◌≡◌, ◌≢◌, ap, sym, refl, Bool, true, false, Option, none, some, String, ◌∷◌, ◌⊎◌, inl, inr,
  lookup, str_eq, eq_iff, eq_refl, ◌<>◌, lookup-insert, if◌then◌else◌,
}
use envy.Model.{plain, Composition, Component, ExecutionRef, Platform, Err}
use envy.Domain.Workload.{workload_kind, is_finite, execution_id}
use envy.Reconciler.Effects.{
  M, Oracle, Worker, Res, ok, failed, is_ok, save, gets, modify, persist, pure, fail, ask, ◌>>=◌,
}
use envy.Reconciler.Step.Workloads.{
  identify, identify_finite, find_execution, replace_execution, start_execution, fresh_execution,
  set_execution, is_active,
}

module _ (p : Platform) (o : Oracle) (component : String) (profile : Component)
    (image : String) where
  -- The composition with a fresh execution, which is saved before it is returned.
  pub record Started (w : Worker) (r : Res (Option ExecutionRef) × Worker) : Type 0 where
    pub saved : Composition
    pub entered :
        lookup component saved.runtime.executions
        ≡ some (fresh_execution (execution_id p profile image) w.comp.generation)
    pub composition : r.1.comp ≡ saved
    pub history :
        r.1.history
        ≡ record { request = save saved; succeeded = is_ok (o.save w.history saved) } ∷ w.history
    pub result :
        ((o.save w.history saved ≡ ok tt)
          × (r.0 ≡ ok (some (fresh_execution (execution_id p profile image) w.comp.generation))))
        ⊎ ((e : Err) × (o.save w.history saved ≡ failed e) × (r.0 ≡ failed e))

  -- What `identify` does: nothing for a workload that runs on; keep the execution of the same
  -- specification; refuse to replace an active one of another; else start a fresh one.
  pub data Identified (w : Worker) (r : Res (Option ExecutionRef) × Worker) : Type 0 where
    endless : is_finite (workload_kind profile) ≡ false → r ≡ (ok none, w) → Identified w r
    kept :
        (e : ExecutionRef)
        → lookup component w.comp.runtime.executions ≡ some e
        → e.spec_hash ≡ (execution_id p profile image).1
        → r ≡ (ok (some e), w)
        → Identified w r
    refused :
        (e : ExecutionRef) (x : Err)
        → lookup component w.comp.runtime.executions ≡ some e
        → e.spec_hash ≢ (execution_id p profile image).1
        → is_active profile e.state ≡ true
        → r ≡ (failed x, w)
        → Identified w r
    first : lookup component w.comp.runtime.executions ≡ none → Started w r → Identified w r
    replaced :
        (e : ExecutionRef)
        → lookup component w.comp.runtime.executions ≡ some e
        → e.spec_hash ≢ (execution_id p profile image).1
        → is_active profile e.state ≡ false
        → Started w r
        → Identified w r

  -- The fresh execution is returned as there being one.
  abbrev given : M ExecutionRef → M (Option ExecutionRef)
  given m = m >>= λ e. pure (some e)

  start_execution-Started :
      (w : Worker)
      → Started w (given (start_execution p o component (execution_id p profile image)) w)
  unfolding start_execution ◌>>=◌ gets modify persist ask pure set_execution
  start_execution-Started w = saved_as (o.save w.history c) refl
    where
      c : Composition
      c =
          set_execution component (fresh_execution (execution_id p profile image) w.comp.generation)
            w.comp

      entered_in :
          lookup component c.runtime.executions
          ≡ some (fresh_execution (execution_id p profile image) w.comp.generation)
      entered_in = rw (eq_refl component) at (
          lookup-insert component component
            (fresh_execution (execution_id p profile image) w.comp.generation)
            w.comp.runtime.executions)

      saved_as :
          (r : Res (Unit {0}))
          → o.save w.history c ≡ r
          → Started w (given (start_execution p o component (execution_id p profile image)) w)
      saved_as (ok _) e = rw e (record {
        saved = c;
        entered = entered_in;
        composition = refl;
        history = ap (λ x. record { request = save c; succeeded = is_ok x } ∷ w.history) (sym e);
        result = inl (e, refl);
      })
      saved_as (failed x) e = rw e (record {
        saved = c;
        entered = entered_in;
        composition = refl;
        history = ap (λ x. record { request = save c; succeeded = is_ok x } ∷ w.history) (sym e);
        result = inr (x, e, refl);
      })

  find_execution-Identified :
      (w : Worker) (found : Option ExecutionRef)
      → is_finite (workload_kind profile) ≡ true
      → lookup component w.comp.runtime.executions ≡ found
      → Identified w
          (given (find_execution p o component profile (execution_id p profile image) found) w)
  unfolding find_execution replace_execution ◌>>=◌ pure fail
  find_execution-Identified w none finite e = Identified.first e (start_execution-Started w)
  find_execution-Identified w (some old) finite e =
      compared (str_eq old.spec_hash (execution_id p profile image).1) (is_active profile old.state)
        refl refl
    where
      message : Err
      message = plain (
          "cannot replace active Job "
          <> (component <> "; wait for it to finish or delete the composition"))

      compared :
          (x y : Bool)
          → str_eq old.spec_hash (execution_id p profile image).1 ≡ x
          → is_active profile old.state ≡ y
          → Identified w (
              given
                (if x
                  then pure old
                  else if y
                  then fail message
                  else start_execution p o component (execution_id p profile image))
                w)
      compared true y same active = Identified.kept old e ((eq_iff _ _).0 same) refl
      compared false true same active =
          Identified.refused old message e (λ q. cc (same, (eq_iff _ _).1 q)) active refl
      compared false false same active =
          Identified.replaced old e (λ q. cc (same, (eq_iff _ _).1 q)) active
            (start_execution-Started w)

  -- Nothing happens to a workload that runs on; an execution of the same specification is kept,
  -- active or not; an active one of another specification is not replaced; else a fresh one is
  -- entered in the composition, which is saved, and it is returned only if that succeeded.
  pub identify-Identified : (w : Worker) → Identified w (identify p o component profile image w)
  unfolding identify identify_finite ◌>>=◌ gets pure
  identify-Identified w = branch (is_finite (workload_kind profile)) refl
    where
      branch :
          (b : Bool)
          → is_finite (workload_kind profile) ≡ b
          → Identified w ((if b then identify_finite p o component profile image else pure none) w)
      branch true e = find_execution-Identified w _ e refl
      branch false e = Identified.endless e refl
