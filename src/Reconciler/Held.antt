-- ===== src/Reconciler/Held.antt =====
-- internal/reconciler/reconciler.go: no action but `setReady` touches the desired state of a
-- composition or its endpoints.
pub mod Teardown
pub mod Provision
pub mod Conclude
use envy.Common.{
  ℕ, ◌≡◌, refl, Bool, true, false, Option, none, some, List, [], ◌∷◌, String, if◌then◌else◌, Map,
  arith,
}
use envy.Model.{
  Composition, ComponentOverride, Endpoint, ResolvedPlan, Err, Time, Platform, WorkloadRef,
  RouteSnapshot,
}
use envy.Reconciler.Effects.{
  Request, History, ask_both, M, Oracle, Config, Worker, Res, modify, wrap, lift, gets, ask, pure,
  fail, ◌>>=◌, ◌>>◌, clock, persist, verify_absent, delete_namespace, confirm_absent,
}
use envy.Reconciler.Intent.{held}
use envy.Reconciler.Keeps.{
  Keeps, IsLawful, IsTrail, Calm, Calm-IsTrail, calm_rules, Keeps-pure, Keeps-fail, Keeps-gets,
  Keeps-lift, Keeps-bind, Keeps-wrap, Keeps-if, Calm-modify, Calm-ask, Calm-ask_both,
}
use envy.Reconciler.Routes
use envy.Reconciler.Routes.{
  sync_routes, build_snapshot, publish_changed, accept, publish, set_applied, already_applied,
}
use envy.Reconciler.Destroy.{withdraw, drain, retract}

pub held_trail : IsTrail (Calm held)
held_trail = Calm-IsTrail held

pub held-pure : {A : Type 0} (a : A) → Keeps (Calm held) (pure a)
held-pure = Keeps-pure held_trail

pub held-fail : {A : Type 0} (e : Err) → Keeps (Calm held) (fail {A = A} e)
held-fail = Keeps-fail held_trail

pub held-gets : {A : Type 0} (f : Composition → A) → Keeps (Calm held) (gets f)
held-gets = Keeps-gets held_trail

pub held-lift : {A : Type 0} (r : Res A) → Keeps (Calm held) (lift r)
held-lift = Keeps-lift held_trail

pub held-bind :
    {A B : Type 0} (m : M A) (f : A → M B)
    → Keeps (Calm held) m
    → ((a : A) → Keeps (Calm held) (f a))
    → Keeps (Calm held) (m >>= f)
held-bind = Keeps-bind held_trail

pub held-modify :
    (g : Composition → Composition)
    → ((c : Composition) → held (g c) ≡ held c)
    → Keeps (Calm held) (modify g)
held-modify = Calm-modify

pub held-ask :
    {B : Type 0} (q : Request) (a : History → Res B)
    → ((h : History) → IsLawful q h)
    → Keeps (Calm held) (ask q a)
held-ask = Calm-ask

pub held-ask_both :
    {B : Type 0} (q : Request) (a : History → B × Option Err)
    → ((h : History) → IsLawful q h)
    → Keeps (Calm held) (ask_both q a)
held-ask_both = Calm-ask_both

pub ruleset held_rules = (held-pure, held-fail, held-gets, held-lift, held-bind, calm_rules)

module _ (p : Platform) (o : Oracle) where
  sync_routes-lawful : (w : Worker) → Calm held w (sync_routes p o w).1
  unfolding sync_routes publish_changed publish accept set_applied build_snapshot ◌>>=◌ ask wrap
      lift pure fail held
  sync_routes-lawful w = ground arith

module _ (p : Platform) (o : Oracle) where
  pub sync_routes-Held : Keeps (Calm held) (sync_routes p o)
  sync_routes-Held = record { at = sync_routes-lawful p o }
