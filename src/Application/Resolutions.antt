-- ===== src/Application/Resolutions.antt =====
-- internal/application/builds.go: what the overrides of a request resolve to.
use envy.Common.{
  ◌+◌, ◌≤◌, suc, ap, sym, subst, ◌∙◌, ◌||◌, lookup, has_key, lookup-insert, ◌≡◌, refl, String, true,
  some, [], ◌∷◌, Map, insert, length, All, str_eq, eq_iff, Bool-cases, arith, inl, inr,
}
use mathlib.Core.List.{Memᴰ}
use envy.Model.{Build, ComponentOverride}
use envy.Application.Backend.{Backend, Query}
use envy.Application.Builds.{resolve_build, resolve_override, resolve_each, resolve_overrides}
use envy.Application.Lookups.{
  is_read, require_builds-Allows, check_image-Allows, eligible_repository-Allows,
}
use envy.Application.Allows.{
  Allows, Allows-bind, Allows-pure, Allows-weaken, Allows-Answered, Answered, Allows-then,
  Allows-given,
}

-- An override as it is stored: an image that the client named, or the one of a build of its
-- component.
pub data IsResolved (component : String) (o : ComponentOverride) : Type 0 where
  direct : o.build_id ≡ "" → IsResolved component o
  built :
      (build : Build)
      → o.source ≡ some build
      → build.component ≡ component
      → o.image ≡ build.image
      → IsResolved component o

abbrev pub AllResolved : Map ComponentOverride → Type 0
AllResolved m = All (λ e. IsResolved e.0 e.1) m

pub AllResolved-insert :
    (component : String) (o : ComponentOverride) (m : Map ComponentOverride)
    → IsResolved component o
    → AllResolved m
    → AllResolved (insert component o m)
AllResolved-insert component o [] r k = (r, tt)
AllResolved-insert component o ((j, v) ∷ m) r (k, ks) = elim (Bool-cases (str_eq j component)) [
  | inl same ↦ rw same (r, ks)
  | inr other ↦ rw other (k, AllResolved-insert component o m r ks)
]

-- How an override that was asked for resolved: to itself, or to the build that the store returned.
pub data IsResolution (b : Backend) (project component : String) (o o' : ComponentOverride)
    : Type 0 where
  itself : o.build_id ≡ "" → o' ≡ o → IsResolution b project component o o'
  from_build :
      (build : Build)
      → Answered (λ h. b.build h project o.build_id) build
      → build.component ≡ component
      → o' ≡ record { image = build.image; build_id = build.id; source = some build }
      → IsResolution b project component o o'

-- The overrides that were asked for, resolved: each is one of them, and none is left out.
pub record Resolution (b : Backend) (project : String) (asked out : Map ComponentOverride)
    : Type 0 where
  pub sound :
      (component : String) (o' : ComponentOverride)
      → lookup component out ≡ some o'
      → (o : ComponentOverride) × (Memᴰ (component, o) asked
          × IsResolution b project component o o')
  pub complete :
      (component : String) → has_key component asked ≡ true → has_key component out ≡ true

-- The overrides that resolved, at most as many as were asked for.
abbrev pub Resolves : Backend → String → Map ComponentOverride → Map ComponentOverride → Type 0
Resolves b project asked out =
    AllResolved out × ((length out ≤ length asked) × Resolution b project asked out)

IsResolution-IsResolved :
    (b : Backend) (project component : String) (o o' : ComponentOverride)
    → IsResolution b project component o o'
    → IsResolved component o'
IsResolution-IsResolved b project component o o' (itself e same) =
    IsResolved.direct (ap (λ x. x.build_id) same ∙ e)
IsResolution-IsResolved b project component o o' (from_build build k e same) =
    IsResolved.built build (ap (λ x. x.source) same) e (ap (λ x. x.image) same)

pub length-insert :
    {V : Type 0} (k : String) (v : V) (m : Map V) → length (insert k v m) ≤ suc (length m)
length-insert k v [] = omega arith
length-insert k v ((j, w) ∷ m) = ground (arith, length-insert k v m)

module _ {P : Query → Type 0} (reads : (q : Query) → is_read q ≡ true → P q) (b : Backend) where
  resolve_build-Allows :
      (project component : String) (o : ComponentOverride)
      → Allows P (IsResolution b project component o) (resolve_build b project component o.build_id)
  unfolding resolve_build
  resolve_build-Allows project component o = Allows-then _ _ (require_builds-Allows reads b) (λ _.
      Allows-Answered _ _ _
        (λ build known. Allows-given _ _ _ (λ _ same.
          Allows-bind
            (λ r. (r.enabled ≡ true) × Answered (λ h. b.repository h project build.repository) r)
            (λ r _. Allows-given _ _ _ (λ _ _. Allows-then _ _ (check_image-Allows reads b _) (λ _.
              Allows-pure _
                (from_build build known ((eq_iff build.component component).0 same) refl))))
            (eligible_repository-Allows reads b _ _)))
        (reads _ refl))

  resolve_override-Allows :
      (project component : String) (o : ComponentOverride)
      → Allows P (IsResolution b project component o) (resolve_override b project component o)
  unfolding resolve_override
  resolve_override-Allows project component o = elim (Bool-cases (str_eq o.build_id "")) [
    | inl named ↦ rw named (Allows-pure o (itself ((eq_iff o.build_id "").0 named) refl))
    | inr other ↦ rw other (resolve_build-Allows project component o)
  ]

  -- What holds of the overrides resolved so far, where `rest` are left.
  record Resolving (project : String) (asked out rest : Map ComponentOverride) : Type 0 where
    resolved : AllResolved out
    sound :
        (component : String) (o' : ComponentOverride)
        → lookup component out ≡ some o'
        → (o : ComponentOverride) × (Memᴰ (component, o) asked
            × IsResolution b project component o o')
    left : (e : String × ComponentOverride) → Memᴰ e rest → Memᴰ e asked

  Resolving-next :
      (project component : String) (asked out rest : Map ComponentOverride)
      (o o' : ComponentOverride)
      → Resolving project asked out ((component, o) ∷ rest)
      → IsResolution b project component o o'
      → Resolving project asked (insert component o' out) rest
  Resolving-next project component asked out rest o o' k r = record {
    resolved =
        AllResolved-insert component o' out (IsResolution-IsResolved b project component o o' r)
          k.resolved;
    sound = λ name o'' e. elim (Bool-cases (str_eq component name)) [
      | inl same ↦ here name o'' e same
      | inr other ↦ k.sound name o'' (sym (rw other at (lookup-insert component name o' out)) ∙ e)
    ];
    left = λ e h. k.left e (Memᴰ.tail h);
  }
    where
      here :
          (name : String) (o'' : ComponentOverride)
          → lookup name (insert component o' out) ≡ some o''
          → str_eq component name ≡ true
          → (x : ComponentOverride) × (Memᴰ (name, x) asked × IsResolution b project name x o'')
      here name o'' e same =
          subst
            (λ n. (x : ComponentOverride) × (Memᴰ (n, x) asked × IsResolution b project n x o''))
            ((eq_iff component name).0 same)
            (
              o,
              (
                k.left _ (Memᴰ.head refl),
                subst (IsResolution b project component o)
                    (value (sym (rw same at (lookup-insert component name o' out)) ∙ e)) r,
              ),
            )
        where
          value : {a c : ComponentOverride} → some a ≡ some c → a ≡ c
          value q = cc q

  -- A key of either map stays one of the result.
  abbrev Covered : Map ComponentOverride → Map ComponentOverride → Map ComponentOverride → Type 0
  Covered out rest result =
      (name : String) → (has_key name out || has_key name rest) ≡ true → has_key name result ≡ true

  resolve_each-Allows :
      (project : String) (asked out rest : Map ComponentOverride)
      → Resolving project asked out rest
      → Allows P
          (λ m.
            Resolving project asked m []
            × ((length m ≤ length out + length rest) × Covered out rest m))
          (resolve_each b project out rest)
  unfolding resolve_each
  resolve_each-Allows project asked out [] k =
      Allows-pure out (k, (omega arith, λ name h. ground (arith, h)))
  resolve_each-Allows project asked out ((component, o) ∷ rest) k =
      Allows-bind (IsResolution b project component o)
        (λ o' r.
          Allows-weaken
            (λ m g. (
              g.0,
              (
                omega (arith, g.1.0, length-insert component o' out),
                λ name h. g.1.1 name (ground (arith, h, lookup-insert component name o' out)),
              ),
            ))
            _
            (resolve_each-Allows project asked (insert component o' out) rest
              (Resolving-next project component asked out rest o o' k r)))
        (resolve_override-Allows project component o)

  pub resolve_overrides-Allows :
      (project : String) (overrides : Map ComponentOverride)
      → Allows P (Resolves b project overrides) (resolve_overrides b project overrides)
  unfolding resolve_overrides
  resolve_overrides-Allows project overrides =
      Allows-weaken
        (λ m g. (
          g.0.resolved,
          (omega (arith, g.1.0), record { sound = g.0.sound; complete = λ name h. g.1.1 name h }),
        ))
        _
        (resolve_each-Allows project overrides [] overrides
          (record { resolved = tt; sound = λ component o' e. cc; left = λ e h. h }))
