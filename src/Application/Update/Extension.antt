-- ===== src/Application/Update/Extension.antt =====
-- internal/application/service.go: `Update` extends the captured plan, and what was captured stays.
use envy.Common.{
  ◌≡◌, refl, sym, ◌∙◌, subst, ◌⊎◌, inl, inr, String, true, false, Option, none, some, Map, get_or,
  has_key, lookup, is_some, str_eq, eq_iff, lookup-insert, Bool-cases,
}
use envy.Model.{Component, ComponentOverride, PreviewSnapshot, ResolvedPlan}
use envy.Application.Requests.{valid_preview_image, no_override}
use envy.Application.Backend.{Outcome, returned, failed}
use envy.Application.Prepare.{bound_port}
use envy.Application.Prepare.Selection.{Pinned}
use envy.Application.Update.{with_component, with_published}

-- A component of the plan after an update: it is new, or it has the profile and the preview that
-- were captured before.
pub data IsCaptured (old new : ResolvedPlan) (name : String) : Type 0 where
  is_new : lookup name old.components ≡ none → IsCaptured old new name
  as_was :
      lookup name new.components ≡ lookup name old.components
      → lookup name new.previews ≡ lookup name old.previews
      → IsCaptured old new name

pub record Extends (old new : ResolvedPlan) : Type 0 where
  pub baseline : new.baseline ≡ old.baseline
  pub subscriptions : new.message_subscriptions ≡ old.message_subscriptions
  pub captured : (name : String) → IsCaptured old new name

pub Extends-refl : (plan : ResolvedPlan) → Extends plan plan
Extends-refl plan = record {
  baseline = refl;
  subscriptions = refl;
  captured = λ name. IsCaptured.as_was refl refl;
}

IsCaptured-trans :
    (a b c : ResolvedPlan) (name : String)
    → IsCaptured a b name
    → IsCaptured b c name
    → IsCaptured a c name
IsCaptured-trans a b c name (IsCaptured.is_new e) q = IsCaptured.is_new e
IsCaptured-trans a b c name (IsCaptured.as_was e f) (IsCaptured.is_new g) =
    IsCaptured.is_new (sym e ∙ g)
IsCaptured-trans a b c name (IsCaptured.as_was e f) (IsCaptured.as_was g h) =
    IsCaptured.as_was (g ∙ e) (h ∙ f)

pub Extends-trans : (a b c : ResolvedPlan) → Extends a b → Extends b c → Extends a c
Extends-trans a b c p q = record {
  baseline = q.baseline ∙ p.baseline;
  subscriptions = q.subscriptions ∙ p.subscriptions;
  captured = λ name. IsCaptured-trans a b c name (p.captured name) (q.captured name);
}

missing : {V : Type 0} (o : Option V) → is_some o ≡ false → o ≡ none
missing none e = refl
missing (some v) e = cc

-- A component that the plan has not may be added.
module _ (plan : ResolvedPlan) (component : String) (profile : Component)
    (absent : has_key component plan.components ≡ false) where
  added :
      (o : Option PreviewSnapshot) (name : String)
      → IsCaptured plan (with_component plan component profile o) name
  added o name = elim (Bool-cases (str_eq component name)) [
    | inl same ↦ IsCaptured.is_new (
        subst (λ n. lookup n plan.components ≡ none) ((eq_iff component name).0 same)
          (missing _ absent))
    | inr other ↦ elsewhere o other
  ]
    where
      elsewhere :
          (o : Option PreviewSnapshot)
          → str_eq component name ≡ false
          → IsCaptured plan (with_component plan component profile o) name
      elsewhere none other =
          IsCaptured.as_was (cc (lookup-insert component name profile plan.components, other)) refl
      elsewhere (some snapshot) other =
          IsCaptured.as_was
            (cc (
              lookup-insert component name
                  (record profile { port = bound_port plan.baseline component }) plan.components,
              other,
            ))
            (cc (lookup-insert component name snapshot plan.previews, other))

  pub with_component-Extends :
      (o : Option PreviewSnapshot) → Extends plan (with_component plan component profile o)
  with_component-Extends none = record {
    baseline = refl;
    subscriptions = refl;
    captured = added none;
  }
  with_component-Extends (some snapshot) = record {
    baseline = refl;
    subscriptions = refl;
    captured = added (some snapshot);
  }

pub with_published-Extends :
    (plan : ResolvedPlan) (component : String) (r : Outcome Component)
    → has_key component plan.components ≡ false
    → Extends plan (with_published plan component r)
with_published-Extends plan component (returned profile) absent =
    with_component-Extends plan component profile absent none
with_published-Extends plan component (failed e) absent = Extends-refl plan

-- A component that an update selects.
pub record Chosen (overrides : Map ComponentOverride) (plan : ResolvedPlan) (name : String)
    : Type 0 where
  pub profiled : has_key name plan.components ≡ true
  pub bound : has_key name plan.baseline.components ≡ true
  pub pinned : Pinned overrides plan.previews name

pub Chosen-kept :
    (overrides : Map ComponentOverride) (old new : ResolvedPlan) (name : String)
    → Extends old new
    → Chosen overrides old name
    → Chosen overrides new name
Chosen-kept overrides old new name e c = kept (e.captured name)
  where
    kept : IsCaptured old new name → Chosen overrides new name
    kept (IsCaptured.is_new absent) = cc (c.profiled, absent)
    kept (IsCaptured.as_was p q) = record {
      profiled = cc (p, c.profiled);
      bound = subst (λ b. has_key name b.components ≡ true) (sym e.baseline) c.bound;
      pinned =
          subst
            (λ o.
              (o ≡ none) ⊎ (valid_preview_image (get_or no_override name overrides).image ≡ true))
            (sym q) c.pinned;
    }
