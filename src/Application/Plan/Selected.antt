-- ===== src/Application/Plan/Selected.antt =====
-- internal/application/onboarding_plan.go: what the loops of `PlanCreate` add to a plan.
use envy.Common.{
  ◌≡◌, refl, ◌∙◌, ap, sym, String, not, ◌&&◌, ◌||◌, Option, none, some, List, [], ◌∷◌, ◌++◌, map,
  Map, has_key, get_or, lookup, insert, lookup-insert, eq_iff, str_eq, arith, if◌then◌else◌,
}
use mathlib.Core.List.{append-nil, append_assoc}
use envy.Model.{
  BaselineBinding, Component, ComponentOverride, PreviewPlan, PlannedWorkload, PreviewSnapshot,
  CompositePreviewPolicy,
}
use envy.Application.Requests.{no_override}
use envy.Application.Prepare.{Preparation, no_component}
use envy.Application.Plan.{add_inherited, add_selected, add_each, with_policy, planned_workload}

has_key-insert :
    {V : Type 0} (name id : String) (v : V) (m : Map V)
    → has_key name (insert id v m) ≡ (str_eq id name || has_key name m)
has_key-insert name id v m = ground (arith, lookup-insert id name v m)

-- What is inherited: the bindings of the baseline that no override selects.
pub has_key-add_inherited :
    (overrides : Map ComponentOverride) (name : String) (bindings out : Map BaselineBinding)
    → has_key name (add_inherited overrides bindings out)
      ≡ (has_key name out || (has_key name bindings && not (has_key name overrides)))
has_key-add_inherited overrides name [] out = ground arith
has_key-add_inherited overrides name ((id, binding) ∷ rest) out = ground (
  arith,
  eq_iff id name,
  has_key-insert name id binding out,
  has_key-add_inherited overrides name rest
      (if has_key id overrides then out else insert id binding out),
)

map-snoc :
    {A B : Type 0} (f : A → B) (xs : List A) (y : A) (zs : List B)
    → map f (xs ++ (y ∷ [])) ++ zs ≡ map f xs ++ (f y ∷ zs)
map-snoc f [] y zs = refl
map-snoc f (x ∷ xs) y zs = ap (f x ∷◌) (map-snoc f xs y zs)

abbrev pub selected_names : PreviewPlan → List String
selected_names plan = map (λ w. w.component) plan.selected

-- What a plan says of an overridden component: its profile, its preview and its override.
abbrev pub planned_for : Map ComponentOverride → Preparation → String → PlannedWorkload
planned_for overrides prepared id =
    planned_workload (get_or no_component id prepared.profiles) (lookup id prepared.previews) id
      (get_or no_override id overrides)

-- What the loop over the overridden components keeps and adds.
pub record Adds (overrides : Map ComponentOverride) (prepared : Preparation) (ids : List String)
    (plan plan' : PreviewPlan) : Type 0 where
  pub ready : plan'.ready ≡ plan.ready
  pub blockers : plan'.blockers ≡ plan.blockers
  pub inherited : plan'.inherited ≡ plan.inherited
  pub revision : plan'.baseline_revision ≡ plan.baseline_revision
  pub selected : selected_names plan' ≡ selected_names plan ++ ids
  pub planned : plan'.selected ≡ plan.selected ++ map (planned_for overrides prepared) ids

with_policy-component :
    (policy : Option CompositePreviewPolicy) (w : PlannedWorkload)
    → (with_policy policy w).component ≡ w.component
with_policy-component none w = refl
with_policy-component (some policy) w = refl

planned_workload-component :
    (profile : Component) (preview : Option PreviewSnapshot) (id : String) (o : ComponentOverride)
    → (planned_workload profile preview id o).component ≡ id
planned_workload-component profile none id o = refl
planned_workload-component profile (some preview) id o =
    with_policy-component preview.composite_policy _

pub add_each-Adds :
    (overrides : Map ComponentOverride) (prepared : Preparation) (ids : List String)
    (plan : PreviewPlan)
    → Adds overrides prepared ids plan (add_each overrides prepared ids plan)
unfolding add_selected
add_each-Adds overrides prepared [] plan = record {
  ready = refl;
  blockers = refl;
  inherited = refl;
  revision = refl;
  selected = sym (append-nil (selected_names plan));
  planned = sym (append-nil plan.selected);
}
add_each-Adds overrides prepared (id ∷ ids) plan =
    let rest = add_each-Adds overrides prepared ids (add_selected overrides prepared id plan) in
    record {
      ready = rest.ready;
      blockers = rest.blockers;
      inherited = rest.inherited;
      revision = rest.revision;
      selected =
          rest.selected
          ∙ map-snoc (λ w. w.component) plan.selected _ ids
          ∙ ap (λ name. selected_names plan ++ (name ∷ ids))
              (planned_workload-component _ (lookup id prepared.previews) id
                (get_or no_override id overrides));
      planned =
          rest.planned
          ∙ append_assoc plan.selected (planned_for overrides prepared id ∷ [])
              (map (planned_for overrides prepared) ids);
    }
