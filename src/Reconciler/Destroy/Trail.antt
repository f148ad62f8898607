-- ===== src/Reconciler/Destroy/Trail.antt =====
-- internal/reconciler/reconciler.go: the calls of `destroy` come after those that were made before.
use envy.Common.{◌≡◌, ◌∙◌, refl, ap, sym, Bool, true, false, Option, none, some, [], ◌∷◌, ◌++◌}
use mathlib.Core.List.{append_assoc}
use envy.Model.{Composition, Platform, Time, Err, ResolvedPlan, RouteObservation, RouteSnapshot}
use envy.Reconciler.Effects.{
  M, Oracle, Config, Worker, Res, Request, History, Messaging, ◌>>=◌, gets, modify, fail, pure, ask,
  lift, clock, persist,
}
use envy.Reconciler.Keeps.{
  Keeps, IsTrail, Keeps-if, Keeps-bind, Keeps-pure, Keeps-fail, Keeps-gets, Keeps-lift, Keeps-wrap,
}
use envy.Reconciler.Routes
use envy.Reconciler.Routes.{sync_routes}
use envy.Reconciler.Destroy

-- The calls made before are those that were made first.
pub record Follows (u v : Worker) : Type 0 where
  pub later : History
  pub grown : v.history ≡ later ++ u.history

pub Follows-trans : (u v w : Worker) → Follows u v → Follows v w → Follows u w
Follows-trans u v w f g = record {
  later = g.later ++ f.later;
  grown = g.grown ∙ ap (λ h. g.later ++ h) f.grown ∙ sym (append_assoc g.later f.later u.history);
}

Follows-IsTrail : IsTrail Follows
Follows-IsTrail = record { stay = λ w. record { later = []; grown = refl }; follow = Follows-trans }

pub Follows-bind :
    {A B : Type 0} (m : M A) (f : A → M B)
    → Keeps Follows m
    → ((a : A) → Keeps Follows (f a))
    → Keeps Follows (m >>= f)
Follows-bind = Keeps-bind Follows-IsTrail

Follows-pure : {A : Type 0} (a : A) → Keeps Follows (pure a)
Follows-pure = Keeps-pure Follows-IsTrail

Follows-fail : {A : Type 0} (e : Err) → Keeps Follows (fail {A = A} e)
Follows-fail = Keeps-fail Follows-IsTrail

pub Follows-gets : {A : Type 0} (f : Composition → A) → Keeps Follows (gets f)
Follows-gets = Keeps-gets Follows-IsTrail

Follows-lift : {A : Type 0} (r : Res A) → Keeps Follows (lift r)
Follows-lift = Keeps-lift Follows-IsTrail

Follows-modify : (g : Composition → Composition) → Keeps Follows (modify g)
unfolding modify
Follows-modify g = record { at = λ w. record { later = []; grown = refl } }

Follows-ask : {B : Type 0} (q : Request) (a : History → Res B) → Keeps Follows (ask q a)
unfolding ask
Follows-ask q a = record { at = λ w. record { later = _ ∷ []; grown = refl } }

Follows-clock : (o : Oracle) → Keeps Follows (clock o)
unfolding clock
Follows-clock o = Follows-ask _ _

Follows-persist : (o : Oracle) → Keeps Follows (persist o)
unfolding persist ask
Follows-persist o = record { at = λ w. record { later = _ ∷ []; grown = refl } }

ruleset follows_rules = (
  Follows-bind, Follows-pure, Follows-fail, Follows-gets, Follows-lift, Follows-modify, Follows-ask,
  Follows-clock, Follows-persist, Keeps-if, Keeps-wrap,
)

module _ (p : Platform) (o : Oracle) where
  set_applied-Follows : (a : Option RouteSnapshot) → Keeps Follows (Routes.set_applied a)
  unfolding Routes.set_applied
  set_applied-Follows a = record { at = λ w. record { later = []; grown = refl } }

  accept-Follows :
      (observed : RouteObservation) (s : RouteSnapshot)
      → Keeps Follows (Routes.accept p o observed s)
  unfolding Routes.accept
  accept-Follows observed s = search (follows_rules, set_applied-Follows)

  publish-Follows : (s : RouteSnapshot) → Keeps Follows (Routes.publish p o s)
  unfolding Routes.publish
  publish-Follows s = search (follows_rules, set_applied-Follows, accept-Follows) depth 9

  publish_changed-Follows : (s : RouteSnapshot) → Keeps Follows (Routes.publish_changed p o s)
  unfolding Routes.publish_changed
  publish_changed-Follows s = record {
    at = λ w.
        (Keeps-if (Routes.already_applied s w.route_cycle) (pure tt) (Routes.publish p o s)
            (Follows-pure tt) (publish-Follows s)).at
          w;
  }

  pub sync_routes-Follows : Keeps Follows (sync_routes p o)
  unfolding sync_routes Routes.build_snapshot lift
  sync_routes-Follows = Follows-bind _ _ (Follows-ask _ _) λ _.
      Follows-bind _ _ (Keeps-wrap _ _ (Follows-ask _ _)) λ all.
        Follows-bind _ _ (record { at = λ w. record { later = []; grown = refl } })
          (λ s. publish_changed-Follows s)

module _ (p : Platform) (o : Oracle) (cfg : Config) where
  retract-Follows : Keeps Follows (Destroy.retract p o cfg)
  unfolding Destroy.retract
  retract-Follows = search (follows_rules, sync_routes-Follows)

  drain-Follows : (until : Option Time) → Keeps Follows (Destroy.drain p o cfg until)
  unfolding Destroy.drain
  drain-Follows none = search follows_rules depth 7
  drain-Follows (some until) = search (follows_rules, retract-Follows)

  pub withdraw_published-Follows : (b : Bool) → Keeps Follows (Destroy.withdraw_published p o cfg b)
  unfolding Destroy.withdraw_published Destroy.withdraw
  withdraw_published-Follows b = search (follows_rules, drain-Follows) depth 12

  remove_isolated-Follows :
      (m : Option Messaging) (plan : Option ResolvedPlan)
      → Keeps Follows (Destroy.remove_isolated p o cfg m plan)
  unfolding Destroy.remove_isolated Destroy.delete_subscriptions
  remove_isolated-Follows (some m) (some plan) = search follows_rules depth 9
  remove_isolated-Follows _ _ = search follows_rules

  complete_destroy-Follows : (b : Bool) → Keeps Follows (Destroy.complete_destroy p o cfg b)
  unfolding Destroy.complete_destroy
  complete_destroy-Follows b = search follows_rules

  pub after_namespace-Follows : (b : Bool) → Keeps Follows (Destroy.after_namespace p o cfg b)
  unfolding Destroy.after_namespace Destroy.remove_messaging
  after_namespace-Follows true =
      search (follows_rules, remove_isolated-Follows, complete_destroy-Follows) depth 9
  after_namespace-Follows false = search follows_rules depth 7

  pub after_routes-Follows : (b : Bool) → Keeps Follows (Destroy.after_routes p o cfg b)
  unfolding Destroy.after_routes Destroy.remove_namespace
  after_routes-Follows true = search (follows_rules, after_namespace-Follows) depth 9
  after_routes-Follows false = search follows_rules
