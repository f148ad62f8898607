-- ===== src/Application/Update/Planned.antt =====
-- internal/application/service.go: what `Update` asks the store to keep.
use envy.Common.{
  ◌≤◌, ◌≡◌, ◌∙◌, lookup-copy, refl, sym, subst, ◌⊎◌, inl, inr, String, Bool, true, false, Option,
  none, some, List, [], ◌∷◌, Map, get_or, has_key, lookup, length, All, arith,
}
use envy.Model.{
  Composition, Component, ComponentOverride, PreviewSnapshot, ResolvedPlan, UpdateRequest,
}
use envy.Domain.Catalog.{profiles, override_names, max_overrides}
use envy.Application.Requests.{or_empty, valid_preview_image, no_override}
use envy.Application.Requests.Validity.{validate_overrides-AreOverrides}
use envy.Application.Lookups.{is_read, resolve_preview-Allows}
use envy.Application.Resolutions.{AllResolved, Resolution, Resolves, resolve_overrides-Allows}
use envy.Application.Backend.{
  Backend, Config, Formats, Query, History, Outcome, returned, failed, update_composition,
  read_component, read_composition, random_id,
}
use envy.Application.Prepare.Selection.{lookup-inserted}
use envy.Application.Update.{
  update, extend_plan, extend_each, capture_new, check_captured, keep_component, keep_published,
  require_plan, copied_plan, with_component, expects,
}
use envy.Application.Update.Extension.{
  Extends, Extends-refl, Extends-trans, with_component-Extends, with_published-Extends, Chosen,
  Chosen-kept, IsCaptured,
}
use envy.Application.Allows.{
  Allows, Allows-pure, Allows-fail, Allows-bind, Allows-then, Allows-after, Allows-given,
  Allows-checked, Allows-unless, Allows-query, Allows-ask, Allows-weaken, Allows-attempt,
  Allows-require, Anything, Meets,
}

module _ (f : Formats) (b : Backend) (cfg : Config) where
  module _ {P : Query → Type 0} (reads : (q : Query) → is_read q ≡ true → P q) where
    capture_new-Allows :
        (req : UpdateRequest) (plan : ResolvedPlan) (component : String) (profile : Component)
        (known : Bool)
        → has_key component plan.components ≡ known
        → Allows P
            (λ plan'. Extends plan plan' × (has_key component plan'.components ≡ true))
            (capture_new f b cfg req plan component profile known)
    unfolding capture_new
    capture_new-Allows req plan component profile true e = Allows-pure plan (Extends-refl plan, e)
    capture_new-Allows req plan component profile false e =
        Allows-then _ _ (resolve_preview-Allows reads f b _ _ _)
          (λ o. Allows-pure _ (with_component-Extends plan component profile e o, has o))
      where
        has :
            (o : Option PreviewSnapshot)
            → has_key component (with_component plan component profile o).components ≡ true
        has none = cc (lookup-inserted component profile plan.components)
        has (some snapshot) = cc (lookup-inserted component _ plan.components)

    check_captured-Allows :
        (req : UpdateRequest) (component : String) (o : Option PreviewSnapshot)
        → Allows P
            (λ _.
              (o ≡ none)
              ⊎ (valid_preview_image (get_or no_override component (or_empty req.overrides)).image
                  ≡ true))
            (check_captured f b cfg req component o)
    unfolding check_captured
    check_captured-Allows req component none =
        Allows-weaken (λ _ _. inl refl) _ (Allows-require _ _)
    check_captured-Allows req component (some snapshot) =
        Allows-unless (expects f b cfg req component snapshot) _ _
          (λ _ _. Allows-weaken (λ _ pinned. inr pinned) _ (Allows-require _ _))

    extend_plan-Allows :
        (project : String) (req : UpdateRequest) (plan : ResolvedPlan) (component : String)
        → Allows P
            (λ plan'. Extends plan plan' × Chosen (or_empty req.overrides) plan' component)
            (extend_plan f b cfg project req plan component)
    unfolding extend_plan
    extend_plan-Allows project req plan component =
        Allows-after _ _ _
          (λ profile. Allows-checked _ _ (λ _ _. Allows-given _ _ _ (λ _ _.
            Allows-given _ _ _ (λ _ bound.
              Allows-bind
                (λ plan'. Extends plan plan' × (has_key component plan'.components ≡ true))
                (λ plan' g.
                  Allows-bind
                    (λ _.
                      (lookup component plan'.previews ≡ none)
                      ⊎ (valid_preview_image
                            (get_or no_override component (or_empty req.overrides)).image
                          ≡ true))
                    (λ _ pinned. Allows-pure plan' (
                      g.0,
                      record {
                        profiled = g.1;
                        bound =
                            subst (λ base. has_key component base.components ≡ true)
                              (sym g.0.baseline) bound;
                        pinned = pinned;
                      },
                    ))
                    (check_captured-Allows req component _))
                (capture_new-Allows req plan component profile _ refl)))))
          (reads (read_component project component) refl)

    extend_each-Allows :
        (project : String) (req : UpdateRequest) (plan : ResolvedPlan) (names : List String)
        → Allows P
            (λ plan'. Extends plan plan' × All (Chosen (or_empty req.overrides) plan') names)
            (extend_each f b cfg project req plan names)
    unfolding extend_each
    extend_each-Allows project req plan [] = Allows-pure plan (Extends-refl plan, tt)
    extend_each-Allows project req plan (component ∷ rest) =
        Allows-bind (λ plan'. Extends plan plan' × Chosen (or_empty req.overrides) plan' component)
          (λ plan' g.
            Allows-weaken
              (λ plan'' h. (
                Extends-trans plan plan' plan'' g.0 h.0,
                (Chosen-kept _ plan' plan'' component h.0 g.1, h.1),
              ))
              _ (extend_each-Allows project req plan' rest))
          (extend_plan-Allows project req plan component)

    keep_component-Allows :
        (project : String) (plan : ResolvedPlan) (component : String) (known : Bool)
        → has_key component plan.components ≡ known
        → Allows P (Extends plan) (keep_component f b cfg project plan component known)
    unfolding keep_component
    keep_component-Allows project plan component true e = Allows-pure plan (Extends-refl plan)
    keep_component-Allows project plan component false e =
        Allows-then _ _
          (Allows-weaken (λ _ _. tt) _
            (Allows-attempt {G = Anything} _
              (Allows-ask _ _ (reads (read_component project component) refl))))
          (λ r. Allows-pure _ (with_published-Extends plan component r e))

    keep_published-Allows :
        (project : String) (plan : ResolvedPlan) (published : Map ComponentOverride)
        → Allows P (Extends plan) (keep_published f b cfg project plan published)
    unfolding keep_published
    keep_published-Allows project plan [] = Allows-pure plan (Extends-refl plan)
    keep_published-Allows project plan ((component, _) ∷ rest) =
        Allows-bind (Extends plan)
          (λ plan' e.
            Allows-weaken (λ plan'' h. Extends-trans plan plan' plan'' e h) _
              (keep_published-Allows project plan' rest))
          (keep_component-Allows project plan component _ refl)

  -- A component after an update: the captured plan had it not, or it has the profile and the preview
  -- that were captured.
  pub data Stays (captured plan : ResolvedPlan) (name : String) : Type 0 where
    added : lookup name (profiles captured) ≡ none → Stays captured plan name
    kept :
        lookup name plan.components ≡ lookup name (profiles captured)
        → lookup name plan.previews ≡ lookup name captured.previews
        → Stays captured plan name

  Stays-copied :
      (captured plan : ResolvedPlan) (name : String)
      → IsCaptured (copied_plan captured) plan name
      → Stays captured plan name
  Stays-copied captured plan name (IsCaptured.is_new e) =
      added (sym (lookup-copy name (profiles captured)) ∙ e)
  Stays-copied captured plan name (IsCaptured.as_was e f) =
      kept (e ∙ lookup-copy name (profiles captured)) (f ∙ lookup-copy name captured.previews)

  -- An update as it is stored: it is the request for the composition that the store returned, with
  -- its overrides resolved, and its plan extends the captured one by what the request selects.
  pub record IsUpdate (id : String) (asked req : UpdateRequest) : Type 0 where
    pub history : History
    pub current : Composition
    pub answered : b.composition history id ≡ returned current
    pub captured : ResolvedPlan
    pub had : current.runtime.plan ≡ some captured
    pub plan : ResolvedPlan
    pub planned : req.plan ≡ some plan
    pub baseline : plan.baseline ≡ captured.baseline
    pub subscriptions : plan.message_subscriptions ≡ captured.message_subscriptions
    pub stays : (name : String) → Stays captured plan name
    pub overrides : Map ComponentOverride
    pub resolution : Resolution b current.project (or_empty asked.overrides) overrides
    pub request : req ≡ record asked { overrides = some overrides; plan = some plan }
    pub few : length (or_empty req.overrides) ≤ max_overrides
    pub resolved : AllResolved (or_empty req.overrides)
    pub chosen :
        All (Chosen (or_empty req.overrides) plan) (override_names (or_empty req.overrides))

  abbrev pub Updates : String → UpdateRequest → Query → Type 0
  Updates id asked (update_composition i req op) = (i ≡ id) × IsUpdate id asked req
  Updates id asked q = is_read q ≡ true

  Updates-read :
      (id : String) (asked : UpdateRequest) (q : Query) → is_read q ≡ true → Updates id asked q
  Updates-read id asked (update_composition i req op) e = cc
  Updates-read id asked q e = e

  All-Chosen_kept :
      (overrides : Map ComponentOverride) (old new : ResolvedPlan) (names : List String)
      → Extends old new
      → All (Chosen overrides old) names
      → All (Chosen overrides new) names
  All-Chosen_kept overrides old new [] e k = tt
  All-Chosen_kept overrides old new (name ∷ names) e (c, k) =
      (Chosen-kept overrides old new name e c, All-Chosen_kept overrides old new names e k)

  require_plan-Allows :
      {P : Query → Type 0} (id : String) (o : Option ResolvedPlan)
      → Allows P (λ plan. o ≡ some plan) (require_plan f b cfg id o)
  require_plan-Allows id none = Allows-fail _
  require_plan-Allows id (some plan) = Allows-pure plan refl

  -- A composition that the store returned.
  abbrev Returned : String → Composition → Type 0
  Returned id c = (h : History) × (b.composition h id ≡ returned c)

  answered :
      (id : String) (h : History) (r : Outcome Composition)
      → b.composition h id ≡ r
      → Meets (Returned id) r
  answered id h (returned c) e = (h, e)
  answered id h (failed e') e = tt

  update-Allows :
      (id : String) (req : UpdateRequest) → Allows (Updates id req) Anything (update f b cfg id req)
  unfolding update
  update-Allows id req = Allows-given _ _ _ (λ _ _. Allows-checked _ _ (λ _ _.
      Allows-checked _ _ (λ _ valid.
        Allows-bind (Returned id)
          (λ c known.
            Allows-bind (Resolves b c.project (or_empty req.overrides))
              (λ overrides r.
                Allows-bind (λ plan. c.runtime.plan ≡ some plan)
                  (λ captured had.
                    Allows-bind
                      (λ plan.
                        Extends (copied_plan captured) plan
                        × All (Chosen overrides plan) (override_names overrides))
                      (λ extended g.
                        Allows-bind (Extends extended)
                          (λ kept k.
                            Allows-after _ _ _
                              (λ op. Allows-ask _ _ (
                                refl,
                                record {
                                  history = known.0;
                                  current = c;
                                  answered = known.1;
                                  captured = captured;
                                  had = had;
                                  plan = kept;
                                  planned = refl;
                                  baseline = k.baseline ∙ g.0.baseline;
                                  subscriptions = k.subscriptions ∙ g.0.subscriptions;
                                  stays = λ name.
                                      Stays-copied captured kept name
                                        ((Extends-trans _ extended kept g.0 k).captured name);
                                  overrides = overrides;
                                  resolution = r.1.1;
                                  request = refl;
                                  few =
                                      omega (
                                        arith,
                                        r.1.0,
                                        (validate_overrides-AreOverrides _ valid).few,
                                      );
                                  resolved = r.0;
                                  chosen = All-Chosen_kept overrides extended kept _ k g.1;
                                },
                              ))
                              (Updates-read id req random_id refl))
                          (keep_published-Allows (Updates-read id req) _ _ _))
                      (extend_each-Allows (Updates-read id req) _ _ _ _))
                  (require_plan-Allows _ _))
              (resolve_overrides-Allows (Updates-read id req) b _ _))
          (Allows-query (read_composition id) _ refl (λ h. answered id h _ refl)))))

  -- Whatever the store and the providers answer, a request to update a composition asks the store at
  -- most to update that composition, and asks for no other change. What is stored is the request,
  -- with its overrides resolved, none added and none left out, and with a plan: of the plan of the
  -- composition that the store returned it has the baseline, the subscriptions and, of each component,
  -- the profile and the preview; and each of at most three overrides has a profile, a binding and,
  -- where a preview was captured, a pinned image.
  pub update-Extends :
      (id : String) (req : UpdateRequest) → All (Updates id req) (update f b cfg id req []).1
  update-Extends id req = (update-Allows id req).queries [] tt
