-- ===== src/Application/Baselines/Registered.antt =====
-- internal/application/catalog.go: what a baseline is that the store is asked to register.
use envy.Common.{◌≤◌, ◌≡◌, refl, String, true, none, List, [], Map, All, length, arith}
use envy.Model.{Baseline, Component, Platform}
use envy.Domain.Workload.Graph.{validate_execution_graph}
use envy.Domain.Messaging.{validate_messaging, passed}
use envy.Domain.Messaging.Validity.{IsMessaging, validate_messaging-IsMessaging}
use envy.Application.Baselines.{check_bound, validate_baseline, register_baseline}
use envy.Application.Baselines.Checks.{
  IsLabelled, IsEndpoint, IsContract, IsSized, check_pubsub-Allows, check_labels-Allows,
  check_endpoint-Allows, check_contract-Allows,
}
use envy.Application.Baselines.Bound.{Binds, Keeps, bind_each-Allows}
use envy.Application.Prepare.Closure.{IsAcyclic, validate_execution_graph-IsAcyclic}
use envy.Application.Prepare.Prepared.{check_graph-Allows, of_checked-Allows}
use envy.Application.Lookups.{is_read}
use envy.Application.Backend.{Backend, Config, Formats, Query, store_baseline, validate_catalog}
use envy.Application.Allows.{
  Allows, Allows-pure, Allows-bind, Allows-then, Allows-after, Allows-given, Allows-unless,
  Allows-ask, Anything,
}

module _ (p : Platform) (f : Formats) (b : Backend) (cfg : Config) where
  pub record IsBaseline (base : Baseline) : Type 0 where
    pub labels : IsLabelled base
    pub endpoint : IsEndpoint p f b cfg base
    pub some_bound : 1 ≤ length base.components
    pub few : length base.components ≤ 20
    pub names : List String
    pub contract : IsContract p f b cfg base names
    pub profiles : Map Component
    pub bound : Binds b base profiles [] [] names
    pub acyclic : IsAcyclic profiles
    pub messaging : IsMessaging base

  module _ {P : Query → Type 0} (reads : (q : Query) → is_read q ≡ true → P q) where
    check_bound-Allows :
        (G : Baseline → Type 0) (base : Baseline) (profiles : Map Component)
        → (IsAcyclic profiles → IsMessaging base → G base)
        → Allows P G (check_bound p f b cfg base profiles)
    unfolding check_bound
    check_bound-Allows G base profiles g =
        Allows-bind (λ _. validate_execution_graph p profiles ≡ none)
          (λ _ graph.
            Allows-bind (λ a. validate_messaging base ≡ passed a)
              (λ _ messages. Allows-then _ _ (check_pubsub-Allows p f b cfg reads base _) (λ _.
                Allows-unless b.has_validator _ _ (λ _ _.
                  Allows-after _ _ _
                    (λ _. Allows-pure base (
                      g (validate_execution_graph-IsAcyclic p profiles graph)
                        (validate_messaging-IsMessaging base messages)))
                    (reads (validate_catalog base) refl))))
              (of_checked-Allows p f b cfg reads _))
          (check_graph-Allows p f b cfg reads _)

    validate_baseline-Allows :
        (base : Baseline) → Allows P IsBaseline (validate_baseline p f b cfg base [])
    unfolding validate_baseline
    validate_baseline-Allows base =
        Allows-bind (λ _. IsLabelled base)
          (λ _ k.
            Allows-bind (λ base'. IsLabelled base' × IsEndpoint p f b cfg base')
              (λ named e. Allows-given _ _ _ (λ _ sized.
                Allows-bind
                  (λ r.
                    (IsLabelled r.0 × IsEndpoint p f b cfg r.0)
                    × (IsSized p f b cfg r.0 × IsContract p f b cfg r.0 r.1))
                  (λ r c.
                    Allows-bind
                      (λ bound. Keeps [] bound.profiles × Binds b r.0 bound.profiles [] [] r.1)
                      (λ bound g.
                        check_bound-Allows IsBaseline r.0 bound.profiles (λ acyclic messaging.
                          record {
                            labels = c.0.0;
                            endpoint = c.0.1;
                            some_bound = c.1.0.0;
                            few = c.1.0.1;
                            names = r.1;
                            contract = c.1.1;
                            profiles = bound.profiles;
                            bound = g.1;
                            acyclic = acyclic;
                            messaging = messaging;
                          }))
                      (bind_each-Allows p f b cfg reads r.0 r.1 _ (λ name h. cc)))
                  (check_contract-Allows p f b cfg reads named e.0 e.1
                    (ground arith, ground arith))))
              (check_endpoint-Allows p f b cfg reads base _ refl k))
          (check_labels-Allows p f b cfg reads base)

  -- What may be asked for a baseline: to register one that is valid, or nothing that changes the
  -- store.
  abbrev pub RegistersBaseline : Query → Type 0
  RegistersBaseline (store_baseline base) = IsBaseline base
  RegistersBaseline q = is_read q ≡ true

  reads : (q : Query) → is_read q ≡ true → RegistersBaseline q
  reads (store_baseline base) e = cc
  reads q e = e

  register_baseline-Allows :
      (base : Baseline) → Allows RegistersBaseline Anything (register_baseline p f b cfg base)
  unfolding register_baseline
  register_baseline-Allows base =
      Allows-bind IsBaseline (λ valid k. Allows-unless b.has_catalog _ _ (λ _ _. Allows-ask _ _ k))
        (validate_baseline-Allows reads base)

  -- Whatever the store and the providers answer, a registration asks the store at most to register
  -- a baseline, and asks for no other change. The baseline has labels; one without an endpoint routes
  -- nothing, another has its own label under the domain of previews. It binds from 1 through 20
  -- components. Those that its contract goes through are bound and distinct, each with the profile
  -- that the store returned; one with an endpoint is bound to a Service of its own in the namespace of
  -- the routing, another only to an image. By those profiles no component depends on itself. The
  -- messaging is accepted.
  pub register_baseline-IsBaseline :
      (base : Baseline) → All RegistersBaseline (register_baseline p f b cfg base []).1
  register_baseline-IsBaseline base = (register_baseline-Allows base).queries [] tt
