-- ===== src/Application/Create/Fresh.antt =====
-- internal/application/service.go: what `Create` asks the store to keep.
use envy.Common.{
  ℕ, ◌+◌, ◌<◌, ◌≤◌, pos, lez, ◌≡◌, refl, String, Bool, true, false, Option, none, some, List, [],
  Map, All, length, arith,
}
use envy.Model.{
  Composition, Baseline, CreateRequest, Phase, ResolvedPlan, Platform, Endpoint,
  MessageSubscription,
}
use envy.Domain.Catalog.{override_names, max_overrides}
use envy.Domain.Messaging.{passed}
use envy.Reconciler.Intent.{NoneReady}
use envy.Application.Requests.{longest_ttl, normalize_create, or_empty}
use envy.Application.Requests.Validity.{normalize_create-IsRequest}
use envy.Application.Lookups.{is_read}
use envy.Application.Resolutions.{AllResolved, Resolves, resolve_overrides-Allows}
use envy.Application.Backend.{
  Backend, Config, Formats, Query, create_composition, replay_create, random_id, read_clock,
}
use envy.Application.Prepare.{no_component, Preparation}
use envy.Application.Prepare.Prepared.{
  IsPrepared, of_checked-Allows, preview_base_url-Allows, prepare_create-Allows,
}
use envy.Application.Create.{
  create, create_fresh, replay_or_create, first_composition, first_endpoints, first_subscriptions,
  of_subscriptions, check_key, replayed,
}
use envy.Application.Prepare.Closure.{IsClosed, IsAcyclic}
use envy.Application.Prepare.Selection.{Selects, Pinned}
use envy.Application.Allows.{
  Allows, Allows-pure, Allows-fail, Allows-bind, Allows-then, Allows-after, Allows-ask,
  Allows-require_any, Allows-if, Anything,
}

module _ (p : Platform) (f : Formats) (b : Backend) (cfg : Config) where
  -- A composition as it is created: nothing is published, ready or under way; its plan has a profile
  -- for each override, and with a profile those that it depends on, without a cycle; and it expires
  -- once its TTL has passed.
  pub record IsFresh (c : Composition) : Type 0 where
    pub plan : ResolvedPlan
    pub planned : c.runtime.plan ≡ some plan
    pub phase : c.phase ≡ Phase.created
    pub generation : c.generation ≡ 1
    pub unobserved : c.observed_generation ≡ 0
    pub unpublished : c.runtime.published_overrides ≡ some []
    pub wanted : c.deletion_requested ≡ false
    pub unready : NoneReady c.endpoints
    pub few : length c.overrides ≤ max_overrides
    pub resolved : AllResolved c.overrides
    pub selected :
        All
          (Selects b c.project cfg.approved_image_pull_secrets plan.baseline plan.components)
          (override_names c.overrides)
    pub pinned : All (Pinned c.overrides plan.previews) (override_names c.overrides)
    pub closed : IsClosed plan.components plan.components
    pub acyclic : IsAcyclic plan.components
    pub ttl : ℕ
    pub positive : 0 < ttl
    pub within : lez (pos ttl) (longest_ttl p f cfg) ≡ true
    pub expires : c.expires_at ≡ c.created_at + ttl

  -- What may be asked of the store: to create such a composition within the quota, or nothing that
  -- changes it.
  abbrev pub Creates : Query → Type 0
  Creates (create_composition c key digest max) = IsFresh c × (max ≡ cfg.max_compositions)
  Creates q = is_read q ≡ true

  reads : (q : Query) → is_read q ≡ true → Creates q
  reads (create_composition c key digest max) e = cc
  reads q e = e

  first_endpoints-Allows :
      (id : String) (needed : Bool) → Allows Creates NoneReady (first_endpoints p f b cfg id needed)
  unfolding first_endpoints
  first_endpoints-Allows id false = Allows-pure [] tt
  first_endpoints-Allows id true =
      Allows-then _ _ (preview_base_url-Allows p f b cfg reads) (λ u. Allows-pure _ (refl, tt))

  of_subscriptions-Allows :
      (o : Option (List MessageSubscription))
      → Allows Creates Anything (of_subscriptions p f b cfg o)
  of_subscriptions-Allows none = Allows-fail _
  of_subscriptions-Allows (some ss) = Allows-pure ss tt

  first_subscriptions-Allows :
      (isolated : Bool) (base : Baseline) (id : String) (expiry : ℕ)
      → Allows Creates Anything (first_subscriptions p f b cfg isolated base id expiry)
  unfolding first_subscriptions
  first_subscriptions-Allows false base id expiry = Allows-pure [] tt
  first_subscriptions-Allows true base id expiry = of_subscriptions-Allows _

  -- A request whose overrides resolved.
  record IsResolvedRequest (req : CreateRequest) (ttl : ℕ) : Type 0 where
    few : length (or_empty req.overrides) ≤ max_overrides
    resolved : AllResolved (or_empty req.overrides)
    positive : 0 < ttl
    within : lez (pos ttl) (longest_ttl p f cfg) ≡ true

  first_composition-IsFresh :
      (req : CreateRequest) (ttl : ℕ)
      → IsResolvedRequest req ttl
      → (base : Baseline) (prepared : Preparation) → IsPrepared p f b cfg req base prepared
      → (id owner op : String) (endpoints : Map Endpoint) → NoneReady endpoints
      → (now : ℕ) (subscriptions : List MessageSubscription)
      → IsFresh (
          first_composition p f b cfg req ttl base prepared id owner op endpoints now subscriptions)
  unfolding first_composition
  first_composition-IsFresh req ttl r base prepared k id owner op endpoints dark now subscriptions =
      record {
        plan = record {
          message_subscriptions = subscriptions;
          previews = prepared.previews;
          baseline = base;
          components = prepared.profiles;
          component = no_component;
        };
        planned = refl;
        phase = refl;
        generation = refl;
        unobserved = refl;
        unpublished = refl;
        wanted = refl;
        unready = dark;
        few = r.few;
        resolved = r.resolved;
        selected = k.selected;
        pinned = k.pinned;
        closed = k.closed;
        acyclic = k.acyclic;
        ttl = ttl;
        positive = r.positive;
        within = r.within;
        expires = refl;
      }

  create_fresh-Allows :
      (req : CreateRequest) (ttl : ℕ) (key digest : String)
      → IsResolvedRequest req ttl
      → Allows Creates Anything (create_fresh p f b cfg req ttl key digest)
  unfolding create_fresh
  create_fresh-Allows req ttl key digest r =
      Allows-bind (λ x. IsPrepared p f b cfg req x.0 x.1)
        (λ x k.
          Allows-after _ _ _
            (λ id.
              Allows-after _ _ _
                (λ owner.
                  Allows-after _ _ _
                    (λ op.
                      Allows-bind NoneReady
                        (λ endpoints dark.
                          Allows-after _ _ _
                            (λ now.
                              Allows-then _ _ (first_subscriptions-Allows _ _ _ _) (λ subscriptions.
                                Allows-ask _ _ (
                                  first_composition-IsFresh req ttl r x.0 x.1 k id owner op
                                      endpoints dark now subscriptions,
                                  refl,
                                )))
                            (reads read_clock refl))
                        (first_endpoints-Allows _ _))
                    (reads random_id refl))
                (reads random_id refl))
            (reads random_id refl))
        (prepare_create-Allows p f b cfg reads req)

  replay_or_create-Allows :
      (req : CreateRequest) (ttl : ℕ) (key digest : String)
      → IsResolvedRequest req ttl
      → Allows Creates Anything (replay_or_create p f b cfg req ttl key digest)
  unfolding replay_or_create
  replay_or_create-Allows req ttl key digest r =
      Allows-if _ _ _ (Allows-after _ _ _ replayed-Allows (reads (replay_create key digest) refl))
        (create_fresh-Allows req ttl key digest r)
    where
      replayed-Allows :
          (o : Option Composition)
          → Allows Creates Anything (replayed p f b cfg req ttl key digest o)
      replayed-Allows none = create_fresh-Allows req ttl key digest r
      replayed-Allows (some previous) = Allows-pure previous tt

  create-Allows :
      (req : CreateRequest) (key : String) → Allows Creates Anything (create p f b cfg req key)
  unfolding create
  create-Allows req key = Allows-then _ _ check_key-Allows (λ _.
      Allows-bind (λ x. normalize_create p f cfg req ≡ passed x)
        (λ x normal.
          Allows-bind (Resolves b x.0.project (or_empty x.0.overrides))
            (λ overrides r.
              let k = normalize_create-IsRequest p f cfg req x normal in
              replay_or_create-Allows _ _ _ _ (record {
                few = omega (arith, r.1.0, k.overrides.few);
                resolved = r.0;
                positive = k.positive;
                within = k.within;
              }))
            (resolve_overrides-Allows reads b _ _))
        (of_checked-Allows p f b cfg reads _))
    where
      check_key-Allows : Allows Creates Anything (check_key p f b cfg key)
      check_key-Allows = Allows-then _ _ (Allows-require_any _ _) (λ _. Allows-require_any _ _)

  -- Whatever the store and the providers answer, a request to create a composition asks the store at
  -- most to create one that is fresh, within the quota of the configuration, and asks for no other
  -- change.
  pub create-IsFresh :
      (req : CreateRequest) (key : String) → All Creates (create p f b cfg req key []).1
  create-IsFresh req key = (create-Allows req key).queries [] tt
