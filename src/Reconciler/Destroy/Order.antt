-- ===== src/Reconciler/Destroy/Order.antt =====
-- internal/reconciler/reconciler.go: the parts of `destroy` that neither delete a namespace nor end
-- the teardown.
use envy.Common.{
  ℕ, ◌+◌, ◌≡◌, ◌∙◌, refl, Bool, true, false, Option, none, some, [], ◌∷◌, if◌then◌else◌, arith,
}
use envy.Model.{Composition, Platform, Time, Phase, Err, ResolvedPlan}
use envy.Reconciler.Intent.{Intent, intent}
use envy.Reconciler.Effects.{
  M, Oracle, Config, Worker, Res, Request, History, Messaging, delete_namespace, ◌>>=◌, gets,
  modify, fail, pure, ask, wrap, lift, clock, persist,
}
use envy.Reconciler.Keeps.{
  Keeps, IsTrail, Keeps-if, Keeps-bind, Keeps-pure, Keeps-fail, Keeps-gets, Keeps-lift, Keeps-wrap,
}
use envy.Reconciler.Routes
use envy.Reconciler.Routes.{sync_routes}
use envy.Reconciler.Destroy

abbrev is_deletion : Request → Bool
is_deletion (delete_namespace _) = true
is_deletion _ = false

-- How often a namespace was deleted.
abbrev pub deletions : History → ℕ
deletions [] = 0
deletions (c ∷ h) = let rest = deletions h in if is_deletion c.request then 1 + rest else rest

-- The phase, the desired state, and the number of deletions.
pub record View : Type 0 where
  pub phase : Phase
  pub intent : Intent
  pub deletions : ℕ

unfoldable pub view : Worker → View
view w = record { phase = w.comp.phase; intent = intent w.comp; deletions = deletions w.history }

-- An action leaves all three as they are.
pub record Spares (u v : Worker) : Type 0 where
  pub same : view v ≡ view u

pub Spares-IsTrail : IsTrail Spares
Spares-IsTrail = record {
  stay = λ w. record { same = refl };
  follow = λ u v w p q. record { same = q.same ∙ p.same };
}

pub Spares-bind :
    {A B : Type 0} (m : M A) (f : A → M B)
    → Keeps Spares m
    → ((a : A) → Keeps Spares (f a))
    → Keeps Spares (m >>= f)
Spares-bind = Keeps-bind Spares-IsTrail

pub Spares-pure : {A : Type 0} (a : A) → Keeps Spares (pure a)
Spares-pure = Keeps-pure Spares-IsTrail

pub Spares-fail : {A : Type 0} (e : Err) → Keeps Spares (fail {A = A} e)
Spares-fail = Keeps-fail Spares-IsTrail

pub Spares-gets : {A : Type 0} (f : Composition → A) → Keeps Spares (gets f)
Spares-gets = Keeps-gets Spares-IsTrail

pub Spares-lift : {A : Type 0} (r : Res A) → Keeps Spares (lift r)
Spares-lift = Keeps-lift Spares-IsTrail

pub Spares-modify :
    (g : Composition → Composition)
    → ((c : Composition) → (g c).phase ≡ c.phase)
    → ((c : Composition) → intent (g c) ≡ intent c)
    → Keeps Spares (modify g)
unfolding modify view
Spares-modify g p i = record {
  at = λ w. record {
    same = λ k. record { phase = p w.comp k; intent = i w.comp k; deletions = deletions w.history };
  };
}

pub Spares-ask :
    {B : Type 0} (q : Request) (a : History → Res B)
    → is_deletion q ≡ false
    → Keeps Spares (ask q a)
unfolding ask view
Spares-ask q a e = record { at = λ w. record { same = rw e } }

pub Spares-clock : (o : Oracle) → Keeps Spares (clock o)
unfolding clock
Spares-clock o = Spares-ask _ _ refl

pub Spares-persist : (o : Oracle) → Keeps Spares (persist o)
unfolding persist ask view
Spares-persist o = record { at = λ w. record { same = refl } }

pub ruleset spares_rules = (
  Spares-bind, Spares-pure, Spares-fail, Spares-gets, Spares-lift, Spares-clock, Spares-persist,
  Keeps-if, Keeps-wrap,
)

module _ (p : Platform) (o : Oracle) where
  -- The composition is left whole.
  pub sync_routes-comp :
      (w : Worker)
      → ((sync_routes p o w).1.comp ≡ w.comp)
        × (deletions (sync_routes p o w).1.history ≡ deletions w.history)
  unfolding sync_routes Routes.publish_changed Routes.publish Routes.accept Routes.set_applied
      Routes.build_snapshot ◌>>=◌ ask wrap lift pure fail
  sync_routes-comp w = ground arith

  pub sync_routes-Spares : Keeps Spares (sync_routes p o)
  unfolding view
  sync_routes-Spares = record {
    at = λ w.
        let (c, d) = sync_routes-comp w in
        record {
          same = λ k. record { phase = (c k).phase; intent = intent (c k); deletions = d k };
        };
  }

module _ (p : Platform) (o : Oracle) (cfg : Config) where
  retract-Spares : Keeps Spares (Destroy.retract p o cfg)
  unfolding Destroy.retract intent
  retract-Spares = search (spares_rules, Spares-modify, sync_routes-Spares)

  drain-Spares : (until : Option Time) → Keeps Spares (Destroy.drain p o cfg until)
  unfolding Destroy.drain intent
  drain-Spares none = search (spares_rules, Spares-modify) depth 7
  drain-Spares (some until) = search (spares_rules, retract-Spares)

  pub withdraw_published-Spares : (b : Bool) → Keeps Spares (Destroy.withdraw_published p o cfg b)
  unfolding Destroy.withdraw_published Destroy.withdraw
  withdraw_published-Spares b = search (spares_rules, Spares-ask, drain-Spares) depth 12

  delete_subscriptions-Spares :
      (m : Messaging) (plan : ResolvedPlan)
      → Keeps Spares (Destroy.delete_subscriptions p o cfg m plan)
  unfolding Destroy.delete_subscriptions intent
  delete_subscriptions-Spares m plan = search (spares_rules, Spares-ask, Spares-modify) depth 9

  pub remove_isolated-Spares :
      (m : Option Messaging) (plan : Option ResolvedPlan)
      → Keeps Spares (Destroy.remove_isolated p o cfg m plan)
  unfolding Destroy.remove_isolated
  remove_isolated-Spares (some m) (some plan) = delete_subscriptions-Spares m plan
  remove_isolated-Spares _ _ = search spares_rules
