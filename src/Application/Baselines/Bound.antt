-- ===== src/Application/Baselines/Bound.antt =====
-- internal/application/catalog.go: how the loop of `validateBaseline` binds the components.
use envy.Common.{
  ◌≡◌, refl, sym, ap, subst, some, inl, inr, Bool-cases, String, Bool, true, false, List, [], ◌∷◌,
  Map, any, is_some, lookup, get_or, has_key, str_eq, eq_iff, arith, insert, lookup-insert, ◌∙◌,
}
use envy.Model.{Baseline, BaselineBinding, Component, Platform}
use envy.Domain.Catalog.{no_binding}
use envy.Domain.Workload.{has_endpoint}
use envy.Application.Bindings.{is_endpoint_free, has_image, is_service, Bindings}
use envy.Application.Baselines.{load_profile, check_binding, bind_component, bind_each}
use envy.Application.Prepare.{no_component}
use envy.Application.Prepare.Selection.{lookup-inserted}
use envy.Application.Lookups.{is_read}
use envy.Application.Backend.{Backend, Config, Formats, Query, read_component}
use envy.Application.Allows.{
  Allows, Allows-pure, Allows-bind, Allows-Answered, Answered, Allows-given, Allows-weaken,
}

-- A binding to a Service in the namespace of the routing, at a host that none before has.
pub record IsServed (base : Baseline) (hosts : List String) (binding : BaselineBinding)
    : Type 0 where
  pub service : is_service base.routing.namespace binding ≡ true
  pub fresh : any (str_eq binding.service_host) hosts ≡ false
  pub image : has_image binding ≡ true

-- A binding without a host or a port, in a baseline without an endpoint.
pub record IsSilent (base : Baseline) (binding : BaselineBinding) : Type 0 where
  pub free : is_endpoint_free base ≡ true
  pub host : binding.service_host ≡ ""
  pub port : binding.port ≡ 0
  pub image : has_image binding ≡ true

-- The profile of a component is the one that the store returned.
pub record Loaded (b : Backend) (project : String) (profiles : Map Component) (name : String)
    : Type 0 where
  pub profile : Component
  pub found : lookup name profiles ≡ some profile
  pub known : Answered (λ h. b.component h project name) profile

abbrev pub AllLoaded : Backend → String → Map Component → Type 0
AllLoaded b project profiles =
    (name : String) → has_key name profiles ≡ true → Loaded b project profiles name

AllLoaded-insert :
    (b : Backend) (project id : String) (c : Component) (profiles : Map Component)
    → Answered (λ h. b.component h project id) c
    → AllLoaded b project profiles
    → AllLoaded b project (insert id c profiles)
AllLoaded-insert b project id c profiles known all name h = elim (Bool-cases (str_eq id name)) [
  | inl same ↦
      subst (Loaded b project (insert id c profiles)) ((eq_iff id name).0 same)
        (record { profile = c; found = lookup-inserted id c profiles; known = known })
  | inr other ↦
      let elsewhere = rw other at (lookup-insert id name c profiles) in
      let old = all name (sym (ap is_some elsewhere) ∙ h) in
      record { profile = old.profile; found = elsewhere ∙ old.found; known = old.known }
]

-- The names are bound and distinct, and each binding fits the profile of its component, which is the
-- one that the store returned.
pub data Binds (b : Backend) (base : Baseline) (profiles : Map Component)
    : List String → List String → List String → Type 0 where
  all_bound : {seen hosts : List String} → Binds b base profiles seen hosts []
  silent :
      {seen hosts names : List String} {name : String}
      → has_key name base.components ≡ true
      → any (str_eq name) seen ≡ false
      → Loaded b base.project profiles name
      → has_endpoint (get_or no_component name profiles) ≡ false
      → IsSilent base (get_or no_binding name base.components)
      → Binds b base profiles (name ∷ seen) hosts names
      → Binds b base profiles seen hosts (name ∷ names)
  served :
      {seen hosts names : List String} {name : String}
      → has_key name base.components ≡ true
      → any (str_eq name) seen ≡ false
      → Loaded b base.project profiles name
      → has_endpoint (get_or no_component name profiles) ≡ true
      → IsServed base hosts (get_or no_binding name base.components)
      → Binds b base profiles
          (name ∷ seen)
          ((get_or no_binding name base.components).service_host ∷ hosts)
          names
      → Binds b base profiles seen hosts (name ∷ names)

abbrev pub Keeps : Map Component → Map Component → Type 0
Keeps profiles profiles' =
    (name : String) → has_key name profiles ≡ true → lookup name profiles' ≡ lookup name profiles

-- How a name was bound, by the profile that was loaded for it.
data Bound (base : Baseline) (name : String) (acc acc' : Bindings) : Type 0 where
  silently :
      has_endpoint (get_or no_component name acc'.profiles) ≡ false
      → IsSilent base (get_or no_binding name base.components)
      → acc'.hosts ≡ acc.hosts
      → Bound base name acc acc'
  with_host :
      has_endpoint (get_or no_component name acc'.profiles) ≡ true
      → IsServed base acc.hosts (get_or no_binding name base.components)
      → acc'.hosts ≡ (get_or no_binding name base.components).service_host ∷ acc.hosts
      → Bound base name acc acc'

record Step (b : Backend) (base : Baseline) (name : String) (acc acc' : Bindings) : Type 0 where
  listed : has_key name base.components ≡ true
  distinct : any (str_eq name) acc.seen ≡ false
  known : has_key name acc'.profiles ≡ true
  all : AllLoaded b base.project acc'.profiles
  kept : Keeps acc.profiles acc'.profiles
  seen : acc'.seen ≡ name ∷ acc.seen
  bound : Bound base name acc acc'

Keeps-insert :
    (id : String) (c : Component) (profiles : Map Component)
    → has_key id profiles ≡ false
    → Keeps profiles (insert id c profiles)
Keeps-insert id c profiles absent name known =
    ground (arith, eq_iff id name, lookup-insert id name c profiles)

Step-Binds :
    (b : Backend) (base : Baseline) (name : String) (names : List String) (acc acc' : Bindings)
    (profiles : Map Component)
    → Step b base name acc acc'
    → Keeps acc'.profiles profiles
    → Binds b base profiles acc'.seen acc'.hosts names
    → Binds b base profiles acc.seen acc.hosts (name ∷ names)
Step-Binds b base name names acc acc' profiles s kept later = bind s.bound
  where
    same : lookup name profiles ≡ lookup name acc'.profiles
    same = kept name s.known

    stored : Loaded b base.project profiles name
    stored =
        let old = s.all name s.known in
        record { profile = old.profile; found = same ∙ old.found; known = old.known }

    loaded :
        {x : Bool}
        → has_endpoint (get_or no_component name acc'.profiles) ≡ x
        → has_endpoint (get_or no_component name profiles) ≡ x
    loaded e = rw (same, get_or) e

    bind : Bound base name acc acc' → Binds b base profiles acc.seen acc.hosts (name ∷ names)
    bind (silently e k h) = silent s.listed s.distinct stored (loaded e) k (
        subst (λ hosts. Binds b base profiles (name ∷ acc.seen) hosts names) h
          (subst (λ seen. Binds b base profiles seen acc'.hosts names) s.seen later))
    bind (with_host e k h) = served s.listed s.distinct stored (loaded e) k (
        subst (λ hosts. Binds b base profiles (name ∷ acc.seen) hosts names) h
          (subst (λ seen. Binds b base profiles seen acc'.hosts names) s.seen later))

module _ (p : Platform) (f : Formats) (b : Backend) (cfg : Config) where
  module _ {P : Query → Type 0} (reads : (q : Query) → is_read q ≡ true → P q) where
    load_profile-Allows :
        (project id : String) (profiles : Map Component) (known : Bool)
        → has_key id profiles ≡ known
        → AllLoaded b project profiles
        → Allows P
            (λ profiles'.
              (has_key id profiles' ≡ true)
              × (Keeps profiles profiles' × AllLoaded b project profiles'))
            (load_profile p f b cfg project id profiles known)
    unfolding load_profile
    load_profile-Allows project id profiles true e all =
        Allows-pure profiles (e, (λ name k. refl, all))
    load_profile-Allows project id profiles false e all =
        Allows-Answered _ _ _
          (λ c known. Allows-pure _ (
            ap is_some (lookup-inserted id c profiles),
            (Keeps-insert id c profiles e, AllLoaded-insert b project id c profiles known all),
          ))
          (reads (read_component project id) refl)

    check_binding-Allows :
        (base : Baseline) (id : String) (acc : Bindings) (served : Bool)
        → has_endpoint (get_or no_component id acc.profiles) ≡ served
        → Allows P
            (λ acc'.
              (acc'.profiles ≡ acc.profiles)
              × ((acc'.seen ≡ id ∷ acc.seen) × Bound base id acc acc'))
            (check_binding p f b cfg base id (get_or no_binding id base.components) acc served)
    unfolding check_binding
    check_binding-Allows base id acc false e = Allows-given _ _ _ (λ _ ok. Allows-pure _ (
      refl,
      (
        refl,
        silently e
            (record {
              free = ground arith;
              host = (eq_iff _ "").0 (ground arith);
              port = ground arith;
              image = ground arith;
            })
            refl,
      ),
    ))
    check_binding-Allows base id acc true e = Allows-given _ _ _ (λ _ ok.
        Allows-given _ _ _ (λ _ image. Allows-pure _ (
          refl,
          (
            refl,
            with_host e (record { service = ground arith; fresh = ground arith; image = image })
                refl,
          ),
        )))

    bind_component-Allows :
        (base : Baseline) (id : String) (acc : Bindings)
        → AllLoaded b base.project acc.profiles
        → Allows P (Step b base id acc) (bind_component p f b cfg base id acc)
    unfolding bind_component
    bind_component-Allows base id acc all = Allows-given _ _ _ (λ _ ok.
        Allows-bind
          (λ profiles.
            (has_key id profiles ≡ true)
            × (Keeps acc.profiles profiles × AllLoaded b base.project profiles))
          (λ profiles loaded.
            Allows-weaken (λ acc' g. stepped acc' profiles (ground arith) (ground arith) loaded g) _
              (check_binding-Allows base id (record acc { profiles = profiles }) _ refl))
          (load_profile-Allows base.project id acc.profiles _ refl all))
      where
        stepped :
            (acc' : Bindings) (profiles : Map Component)
            → has_key id base.components ≡ true
            → any (str_eq id) acc.seen ≡ false
            → (has_key id profiles ≡ true)
              × (Keeps acc.profiles profiles × AllLoaded b base.project profiles)
            → (acc'.profiles ≡ profiles)
              × ((acc'.seen ≡ id ∷ acc.seen)
                  × Bound base id (record acc { profiles = profiles }) acc')
            → Step b base id acc acc'
        stepped acc' profiles listed distinct loaded g = record {
          listed = listed;
          distinct = distinct;
          known = rw g.0 loaded.0;
          all = subst (AllLoaded b base.project) (sym g.0) loaded.1.1;
          kept = λ name k. ap (lookup name) g.0 ∙ loaded.1.0 name k;
          seen = g.1.0;
          bound = rebound g.1.1;
        }
          where
            rebound :
                Bound base id (record acc { profiles = profiles }) acc' → Bound base id acc acc'
            rebound (silently e k h) = silently e k h
            rebound (with_host e k h) = with_host e k h

    pub bind_each-Allows :
        (base : Baseline) (names : List String) (acc : Bindings)
        → AllLoaded b base.project acc.profiles
        → Allows P
            (λ acc'.
              Keeps acc.profiles acc'.profiles
              × Binds b base acc'.profiles acc.seen acc.hosts names)
            (bind_each p f b cfg base names acc)
    unfolding bind_each
    bind_each-Allows base [] acc all = Allows-pure acc (λ name k. refl, all_bound)
    bind_each-Allows base (id ∷ ids) acc all =
        Allows-bind (Step b base id acc)
          (λ acc' s.
            Allows-weaken
              (λ acc'' g. (
                λ name k. g.0 name (ap is_some (s.kept name k) ∙ k) ∙ s.kept name k,
                Step-Binds b base id ids acc acc' acc''.profiles s g.0 g.1,
              ))
              _ (bind_each-Allows base ids acc' s.all))
          (bind_component-Allows base id acc all)
