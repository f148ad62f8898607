-- ===== src/Domain/Recipe/Accepted.antt =====
-- internal/domain/recipe.go: what a recipe is that `DecodeRecipe` accepts.
use envy.Common.{
  ℕ, ◌≤◌, ◌<◌, ◌≡◌, refl, String, Bool, true, false, Option, none, some, List, [], ◌∷◌, Map, All,
  any, length, is_some, str_eq, eq_iff, codes, len, ltb, Bool-cases, arith, inl, inr,
}
use envy.Model.{ComponentOverride, Error, Platform, Url, Build}
use envy.Domain.Catalog.Labels.{IsLabel, valid_catalog_id-IsLabel}
use envy.Domain.Messaging.{Checked, passed, refused}
use envy.Domain.Recipe.{
  Recipe, RecipeFrontend, is_blank, is_recipe_build_id, validate_recipe_override,
  validate_recipe_overrides, valid_recipe_frontend, frontend_key, validate_recipe_frontends,
  validate_recipe, of_validated, of_decoded, decode_recipe,
}

module _ (p : Platform) (parse_url : String → Option Url) (is_loopback : String → Bool)
    (is_digest_reference : String → Bool) where
  -- An override by a build or by a digest, and never by both.
  pub data IsPortable (o : ComponentOverride) : Type 0 where
    by_build : o.source ≡ none → o.image ≡ "" → is_recipe_build_id o.build_id ≡ true → IsPortable o
    by_digest :
        o.source ≡ none
        → o.build_id ≡ ""
        → len o.image ≤ 512
        → is_digest_reference o.image ≡ true
        → IsPortable o

  abbrev pub AreFrontends : String → List String → List RecipeFrontend → Type 0
  AreFrontends project seen [] = Unit
  AreFrontends project seen (f ∷ fs) =
      (valid_recipe_frontend p parse_url is_loopback is_digest_reference project f ≡ true)
      × ((any (str_eq (frontend_key f)) seen ≡ false)
          × AreFrontends project (frontend_key f ∷ seen) fs)

  pub record IsRecipe (r : Recipe) : Type 0 where
    pub version : r.api_version ≡ "envy/recipe-v1"
    pub project : IsLabel (codes r.project)
    pub baseline : IsLabel (codes r.baseline)
    pub revision : is_blank r.baseline_revision ≡ false
    pub short : len r.baseline_revision ≤ 128
    pub overrides : Map ComponentOverride
    pub given : r.overrides ≡ some overrides
    pub few : length overrides ≤ 3
    pub portable : All (λ e. IsLabel (codes e.0) × IsPortable e.1) overrides
    pub ttl : ℕ
    pub parsed : p.parse_duration r.ttl ≡ some ttl
    pub positive : 0 < ttl
    pub few_frontends : length r.frontends ≤ 20
    pub frontends : AreFrontends r.project [] r.frontends

  without_source : (o : Option Build) → is_some o ≡ false → o ≡ none
  without_source none e = refl
  without_source (some x) e = cc

  validate_recipe_override-IsPortable :
      (component : String) (o : ComponentOverride)
      → validate_recipe_override p parse_url is_loopback is_digest_reference component o ≡ none
      → IsLabel (codes component) × IsPortable o
  unfolding validate_recipe_override
  validate_recipe_override-IsPortable component o e = (
    (valid_catalog_id-IsLabel component).0 (ground arith),
    elim (Bool-cases (str_eq o.build_id "")) [
      | inl direct ↦
          by_digest (without_source o.source (ground arith)) ((eq_iff _ "").0 direct)
            (ground (arith, direct)) (ground (arith, direct))
      | inr build ↦
          by_build (without_source o.source (ground arith))
            ((eq_iff _ "").0 (ground (arith, build))) (ground (arith, build))
    ],
  )

  validate_recipe_overrides-ArePortable :
      (overrides : Map ComponentOverride)
      → validate_recipe_overrides p parse_url is_loopback is_digest_reference overrides ≡ none
      → All (λ e. IsLabel (codes e.0) × IsPortable e.1) overrides
  unfolding validate_recipe_overrides
  validate_recipe_overrides-ArePortable [] e = tt
  validate_recipe_overrides-ArePortable ((component, o) ∷ rest) e = (
    validate_recipe_override-IsPortable component o (ground arith),
    validate_recipe_overrides-ArePortable rest (ground arith),
  )

  validate_recipe_frontends-AreFrontends :
      (project : String) (seen : List String) (fs : List RecipeFrontend)
      → validate_recipe_frontends p parse_url is_loopback is_digest_reference project seen fs ≡ none
      → AreFrontends project seen fs
  unfolding validate_recipe_frontends
  validate_recipe_frontends-AreFrontends project seen [] e = tt
  validate_recipe_frontends-AreFrontends project seen (f ∷ fs) e = (
    ground arith,
    (
      ground arith,
      validate_recipe_frontends-AreFrontends project (frontend_key f ∷ seen) fs (ground arith),
    ),
  )

  validate_recipe-IsRecipe :
      (r : Recipe)
      → validate_recipe p parse_url is_loopback is_digest_reference r ≡ none
      → IsRecipe r
  unfolding validate_recipe
  validate_recipe-IsRecipe r e = given r.overrides refl (p.parse_duration r.ttl) refl
    where
      given :
          (x : Option (Map ComponentOverride))
          → r.overrides ≡ x
          → (y : Option ℕ) → p.parse_duration r.ttl ≡ y
          → IsRecipe r
      given none s y t = ground (arith, s)
      given (some overrides) s none t = ground (arith, s, t)
      given (some overrides) s (some ttl) t = record {
        version = (eq_iff _ _).0 (ground arith);
        project = (valid_catalog_id-IsLabel r.project).0 (ground arith);
        baseline = (valid_catalog_id-IsLabel r.baseline).0 (ground arith);
        revision = ground arith;
        short = ground arith;
        overrides = overrides;
        given = s;
        few = ground (arith, s);
        portable = validate_recipe_overrides-ArePortable overrides (ground (arith, s));
        ttl = ttl;
        parsed = t;
        positive = ground (arith, t);
        few_frontends = ground arith;
        frontends = validate_recipe_frontends-AreFrontends r.project [] r.frontends (ground arith);
      }

  -- What is decoded: a recipe within the limit, or nothing.
  abbrev pub Decoded : String → Checked Recipe → Type 0
  Decoded text (passed r) = IsRecipe r × (len text ≤ 65536)
  Decoded text (refused e) = Unit

  module _ (decode : String → Option (Recipe × Bool)) where
    of_validated-Decoded :
        (text : String) (r : Recipe) (e : Option Error)
        → len text ≤ 65536
        → validate_recipe p parse_url is_loopback is_digest_reference r ≡ e
        → Decoded text (of_validated p parse_url is_loopback is_digest_reference decode r e)
    of_validated-Decoded text r none short h = (validate_recipe-IsRecipe r h, short)
    of_validated-Decoded text r (some e) short h = tt

    of_decoded-Decoded :
        (text : String) (o : Option (Recipe × Bool))
        → len text ≤ 65536
        → Decoded text (of_decoded p parse_url is_loopback is_digest_reference decode o)
    of_decoded-Decoded text none short = tt
    of_decoded-Decoded text (some (r, true)) short = of_validated-Decoded text r _ short refl
    of_decoded-Decoded text (some (r, false)) short = tt

    -- Whatever the decoder of JSON returns, a recipe is decoded only from at most 64 KiB, and it is of
    -- the known version, of a labelled project and baseline at a revision that is not blank, with at
    -- most three overrides, each of a labelled component by a build or by a digest, a positive TTL, and
    -- at most twenty valid frontends, none of them twice.
    pub decode_recipe-IsRecipe :
        (text : String)
        → Decoded text (decode_recipe p parse_url is_loopback is_digest_reference decode text)
    unfolding decode_recipe
    decode_recipe-IsRecipe text = elim (Bool-cases (ltb 65536 (len text))) [
      | inl long ↦ rw long tt
      | inr short ↦ rw short (of_decoded-Decoded text (decode text) (ground (arith, short)))
    ]
