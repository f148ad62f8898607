-- ===== src/Application/Prepare/Selection.antt =====
-- internal/application/service.go: what `prepareCreate` has checked of each overridden component.
use envy.Common.{
  ℕ, ◌≡◌, refl, subst, ◌⊎◌, inl, inr, String, true, Option, none, some, List, [], ◌∷◌, Map, get_or,
  has_key, lookup, insert, any, All, str_eq, lookup-insert, eq_refl, eq_iff, Bool-cases, arith,
}
use envy.Model.{Component, ComponentOverride, Baseline, PreviewSnapshot, CreateRequest, Platform}
use envy.Application.Requests.{validate_pull_secrets, valid_preview_image, no_override, or_empty}
use envy.Application.Backend.{Backend, Config, Formats, Query}
use envy.Application.Lookups.{is_read, resolve_preview-Allows}
use envy.Application.Prepare.{Preparation, bound_port, capture, prepare_component, prepare_each}
use envy.Application.Allows.{
  Allows, Allows-pure, Answered, Allows-then, Allows-Answered, Allows-given, Allows-checked,
  Allows-bind, Allows-weaken,
}

abbrev pub IsApproved : List String → List String → Type 0
IsApproved approved names = All (λ name. any (str_eq name) approved ≡ true) names

pub validate_pull_secrets-IsApproved :
    (approved names : List String)
    → validate_pull_secrets approved names ≡ none
    → IsApproved approved names
unfolding validate_pull_secrets
validate_pull_secrets-IsApproved approved [] e = tt
validate_pull_secrets-IsApproved approved (name ∷ names) e =
    elim (Bool-cases (any (str_eq name) approved)) [
      | inl known ↦ (known, validate_pull_secrets-IsApproved approved names (ground (arith, known)))
      | inr unknown ↦ ground (arith, unknown)
    ]

-- A component with a profile that the store returned, at the port that it is bound to, which may be
-- overridden and asks only for approved pull secrets; and with a binding in the baseline.
pub record Selects (b : Backend) (project : String) (approved : List String) (base : Baseline)
    (profiles : Map Component) (name : String) : Type 0 where
  pub profile : Component
  pub found : lookup name profiles ≡ some profile
  pub stored : Component
  pub known : Answered (λ h. b.component h project name) stored
  pub as_stored : profile ≡ record stored { port = profile.port }
  pub allowed : profile.overridable ≡ true
  pub secrets : IsApproved approved profile.image_pull_secrets
  pub bound : has_key name base.components ≡ true

-- A component with a captured preview runs an image that is pinned to a digest.
abbrev pub Pinned : Map ComponentOverride → Map PreviewSnapshot → String → Type 0
Pinned overrides previews name =
    (lookup name previews ≡ none)
    ⊎ (valid_preview_image (get_or no_override name overrides).image ≡ true)

pub Selects-insert :
    (b : Backend) (project : String) (approved : List String) (base : Baseline)
    (profiles : Map Component) (component name : String) (profile : Component)
    → Selects b project approved base (insert component profile profiles) component
    → Selects b project approved base profiles name
    → Selects b project approved base (insert component profile profiles) name
Selects-insert b project approved base profiles component name profile new old =
    elim (Bool-cases (str_eq component name)) [
      | inl same ↦
          subst (Selects b project approved base (insert component profile profiles))
            ((eq_iff component name).0 same) new
      | inr other ↦ record {
        profile = old.profile;
        found = cc (lookup-insert component name profile profiles, other, old.found);
        stored = old.stored;
        known = old.known;
        as_stored = old.as_stored;
        allowed = old.allowed;
        secrets = old.secrets;
        bound = old.bound;
      }
    ]

pub lookup-inserted :
    {V : Type 0} (component : String) (v : V) (m : Map V)
    → lookup component (insert component v m) ≡ some v
lookup-inserted component v m = cc (lookup-insert component component v m, eq_refl component)

pub Pinned-insert :
    (overrides : Map ComponentOverride) (previews : Map PreviewSnapshot) (component name : String)
    (snapshot : PreviewSnapshot)
    → valid_preview_image (get_or no_override component overrides).image ≡ true
    → Pinned overrides previews name
    → Pinned overrides (insert component snapshot previews) name
Pinned-insert overrides previews component name snapshot pinned old =
    elim (Bool-cases (str_eq component name)) [
      | inl same ↦ inr (
          subst (λ n. valid_preview_image (get_or no_override n overrides).image ≡ true)
            ((eq_iff component name).0 same) pinned)
      | inr other ↦ elim old [
        | inl absent ↦ inl (cc (lookup-insert component name snapshot previews, other, absent))
        | inr valid ↦ inr valid
      ]
    ]

-- What a preparation may become: everything selected stays selected, and previews stay pinned.
pub record Extends (b : Backend) (project : String) (approved : List String) (base : Baseline)
    (overrides : Map ComponentOverride) (acc acc' : Preparation) : Type 0 where
  pub kept :
      (name : String)
      → Selects b project approved base acc.profiles name
      → Selects b project approved base acc'.profiles name
  pub pinned :
      (name : String) → Pinned overrides acc.previews name → Pinned overrides acc'.previews name

module _ (p : Platform) (f : Formats) (b : Backend) (cfg : Config) (base : Baseline)
    (req : CreateRequest) where
  abbrev secrets_ok : List String
  secrets_ok = cfg.approved_image_pull_secrets

  abbrev Selected : Preparation → String → Preparation → Type 0
  Selected acc component acc' =
      Extends b req.project secrets_ok base (or_empty req.overrides) acc acc'
      × Selects b req.project secrets_ok base acc'.profiles component

  abbrev pub AllSelected : Preparation → List String → Preparation → Type 0
  AllSelected acc names acc' =
      Extends b req.project secrets_ok base (or_empty req.overrides) acc acc'
      × All (Selects b req.project secrets_ok base acc'.profiles) names

  module _ (acc : Preparation) (component : String) (profile : Component)
      (known : Answered (λ h. b.component h req.project component) profile)
      (allowed : profile.overridable ≡ true)
      (secrets : IsApproved secrets_ok profile.image_pull_secrets)
      (bound : has_key component base.components ≡ true) where
    new_profile :
        (port : ℕ)
        → Selects b req.project secrets_ok base
            (insert component (record profile { port = port }) acc.profiles)
            component
    new_profile port = record {
      profile = record profile { port = port };
      found = lookup-inserted component (record profile { port = port }) acc.profiles;
      stored = profile;
      known = known;
      as_stored = refl;
      allowed = allowed;
      secrets = secrets;
      bound = bound;
    }

    capture-Allows :
        {P : Query → Type 0} (snapshot : Option PreviewSnapshot)
        → Allows P
            (Selected acc component)
            (capture p f b cfg base req acc component profile snapshot)
    unfolding capture
    capture-Allows none = Allows-pure _ (
      record {
        kept = λ name.
            Selects-insert b req.project secrets_ok base acc.profiles component name profile
              (new_profile profile.port);
        pinned = λ name q. q;
      },
      new_profile profile.port,
    )
    capture-Allows (some snapshot) = Allows-given _ _ _ (λ _ pinned. Allows-pure _ (
      record {
        kept = λ name.
            Selects-insert b req.project secrets_ok base acc.profiles component name _
              (new_profile (bound_port base component));
        pinned = λ name.
            Pinned-insert (or_empty req.overrides) acc.previews component name snapshot pinned;
      },
      new_profile (bound_port base component),
    ))

  module _ {P : Query → Type 0} (reads : (q : Query) → is_read q ≡ true → P q) where
    prepare_component-Allows :
        (acc : Preparation) (component : String)
        → Allows P (Selected acc component) (prepare_component p f b cfg base req acc component)
    unfolding prepare_component
    prepare_component-Allows acc component =
        Allows-Answered _ _ _
          (λ profile known. Allows-checked _ _ (λ _ secrets. Allows-given _ _ _ (λ _ allowed.
            Allows-given _ _ _ (λ _ bound.
              Allows-then _ _ (resolve_preview-Allows reads f b _ _ _) (λ snapshot.
                capture-Allows acc component profile known allowed
                  (validate_pull_secrets-IsApproved secrets_ok _ secrets) bound snapshot)))))
          (reads _ refl)

    pub prepare_each-Allows :
        (acc : Preparation) (names : List String)
        → Allows P (AllSelected acc names) (prepare_each p f b cfg base req acc names)
    unfolding prepare_each
    prepare_each-Allows acc [] =
        Allows-pure acc (record { kept = λ name s. s; pinned = λ name s. s }, tt)
    prepare_each-Allows acc (component ∷ rest) =
        Allows-bind (Selected acc component)
          (λ acc' s.
            Allows-weaken
              (λ acc'' t. (
                record {
                  kept = λ name q. t.0.kept name (s.0.kept name q);
                  pinned = λ name q. t.0.pinned name (s.0.pinned name q);
                },
                (t.0.kept component s.1, t.1),
              ))
              _ (prepare_each-Allows acc' rest))
          (prepare_component-Allows acc component)
