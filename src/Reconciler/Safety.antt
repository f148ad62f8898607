-- ===== src/Reconciler/Safety.antt =====
-- internal/reconciler/reconciler.go: what a step and a cycle promise, after calls that were lawful.
use envy.Common.{◌≡◌, ◌⊎◌, Bool}
use envy.Model.{Platform}
use envy.Reconciler.Intent.{intent}
use envy.Reconciler.Effects.{Oracle, Config, Worker, Res}
use envy.Reconciler.Keeps.{AllLawful}
use envy.Reconciler.Step.{step}
use envy.Reconciler.Cycle.{reconcile}
use envy.Reconciler.Ready.Steps.{NotReady, Delivered, step-StepOutcome}
use envy.Reconciler.Ready.Cycles.{reconcile-CycleOutcome}

pub record SafeStep (o : Oracle) (w : Worker) (r : Res (Unit {0}) × Worker) : Type 0 where
  pub intent_kept : intent r.1.comp ≡ intent w.comp
  pub lawful : AllLawful r.1.history
  pub readiness : NotReady w r ⊎ Delivered o w r

pub record SafeCycle (w v : Worker) : Type 0 where
  pub intent_kept : intent v.comp ≡ intent w.comp
  pub lawful : AllLawful v.history

module _ (p : Platform) (o : Oracle) (cfg : Config) where
  -- After lawful calls, a step keeps the desired state and makes lawful calls. After it no endpoint
  -- is ready, or it returned without an error, the composition is not being deleted, it is in the
  -- ready phase with a level of verification, and the verifier confirmed the desired plan.
  pub step-SafeStep : (w : Worker) → AllLawful w.history → SafeStep o w (step p o cfg w)
  step-SafeStep w before =
      let s = step-StepOutcome p o cfg w in
      record { intent_kept = s.intent_kept; lawful = s.lawful before; readiness = s.readiness }

  -- After lawful calls, a cycle keeps the desired state and makes lawful calls, whatever the store,
  -- the clock and the providers answer.
  pub reconcile-SafeCycle :
      (event : Bool) (w : Worker) → AllLawful w.history → SafeCycle w (reconcile p o cfg event w).1
  reconcile-SafeCycle event w before =
      let c = reconcile-CycleOutcome p o cfg event w in
      record { intent_kept = c.intent_kept; lawful = c.lawful before }
