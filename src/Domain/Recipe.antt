-- ===== src/Domain/Recipe.antt =====
-- internal/domain/recipe.go: a recipe, the portable intent that a composition can be made from.
pub mod Accepted
use envy.Common.{
  ℕ, String, Bool, true, false, not, ◌&&◌, ◌||◌, Option, none, some, List, [], ◌∷◌, Map, any, all,
  length, leb, ltb, ◌==◌, if◌then◌else◌, str_eq, codes, len, is_some, ◌<>◌,
}
use envy.Model.{ComponentOverride, Error, Platform, Url, validation}
use envy.Domain.Catalog.{valid_catalog_id, max_overrides}
use envy.Domain.Workload.{is_space, reject_if, first_error}
use envy.Domain.Frontend.{validate_frontend_key, public_frontend_url, is_hex}
use envy.Domain.Messaging.{Checked, passed, refused}

pub record RecipeFrontend : Type 0 where
  pub name : String
  pub repository : String
  pub revision : String

pub record Recipe : Type 0 where
  pub message_isolation : Bool
  pub api_version : String
  pub project : String
  pub baseline : String
  pub baseline_revision : String
  pub overrides : Option (Map ComponentOverride)
  pub ttl : String
  pub frontends : List RecipeFrontend

abbrev pub recipe_version : String
recipe_version = "envy/recipe-v1"

-- `strings.TrimSpace(text) == ""`
abbrev pub is_blank : String → Bool
is_blank text = all is_space (codes text)

-- The regular expression `recipeBuildID`.
unfoldable pub is_recipe_build_id : String → Bool
is_recipe_build_id text = all is_hex (codes text) && length (codes text) == 64

abbrev pub frontend_key : RecipeFrontend → String
frontend_key f = f.name <> ("/" <> f.revision)

-- The parameters stand for `url.Parse`, `net.ParseIP(h).IsLoopback` and `name.NewDigest` with strict
-- validation.
module _ (p : Platform) (parse_url : String → Option Url) (is_loopback : String → Bool)
    (is_digest_reference : String → Bool) where
  unfoldable pub validate_recipe_override : String → ComponentOverride → Option Error
  validate_recipe_override component o =
      reject_if (not (valid_catalog_id component) || is_some o.source)
        "recipe overrides require valid component IDs and no source observations"
        (if not (str_eq o.build_id "")
          then reject_if (not (str_eq o.image "") || not (is_recipe_build_id o.build_id))
              "recipe selects either a build_id or immutable image digest" none
          else reject_if (ltb 512 (len o.image)) "recipe image reference is too long" (
              reject_if (not (is_digest_reference o.image))
                "recipe direct images must use immutable digests; tags cannot be exported" none))

  unfoldable pub validate_recipe_overrides : Map ComponentOverride → Option Error
  validate_recipe_overrides [] = none
  validate_recipe_overrides ((component, o) ∷ rest) =
      first_error (validate_recipe_override component o) (validate_recipe_overrides rest)

  abbrev pub valid_recipe_frontend : String → RecipeFrontend → Bool
  valid_recipe_frontend project f =
      not (
        is_some (
          validate_frontend_key
            (record { project = project; frontend = f.name; revision = f.revision })))
      && public_frontend_url parse_url is_loopback f.repository false

  -- The loop over the frontends; `seen` holds the keys of those before.
  unfoldable pub validate_recipe_frontends :
      String → List String → List RecipeFrontend → Option Error
  validate_recipe_frontends project seen [] = none
  validate_recipe_frontends project seen (f ∷ fs) =
      reject_if (not (valid_recipe_frontend project f))
        "recipe frontends require valid names, exact commits and HTTPS repository URLs"
        (reject_if (any (str_eq (frontend_key f)) seen) "recipe has duplicate frontend selections"
          (validate_recipe_frontends project (frontend_key f ∷ seen) fs))

  abbrev pub valid_recipe_ttl : String → Bool
  valid_recipe_ttl text = elim (p.parse_duration text) [ none ↦ false | some ttl ↦ ltb 0 ttl ]

  abbrev pub valid_recipe_names : Recipe → Bool
  valid_recipe_names r =
      str_eq r.api_version recipe_version
      && valid_catalog_id r.project
      && valid_catalog_id r.baseline
      && not (is_blank r.baseline_revision)
      && leb (len r.baseline_revision) 128

  abbrev pub validate_recipe_rest : Recipe → Option Error
  validate_recipe_rest r =
      reject_if (not (valid_recipe_ttl r.ttl))
        "recipe ttl must be a positive Go duration; server limits apply on recreation"
        (reject_if (ltb 20 (length r.frontends)) "select at most twenty recipe frontends"
          (validate_recipe_frontends r.project [] r.frontends))

  abbrev pub validate_given_overrides : Option (Map ComponentOverride) → Option Error
  validate_given_overrides none = some (validation "recipe requires zero to three overrides")
  validate_given_overrides (some overrides) =
      reject_if (ltb max_overrides (length overrides)) "recipe requires zero to three overrides"
        (validate_recipe_overrides overrides)

  unfoldable pub validate_recipe : Recipe → Option Error
  validate_recipe r =
      reject_if (not (valid_recipe_names r))
        "recipe requires envy/recipe-v1, valid project/baseline and a binding revision"
        (first_error (validate_given_overrides r.overrides) (validate_recipe_rest r))

  -- `decode` stands for the JSON decoder: nothing on an error, else the recipe and whether nothing
  -- follows it.
  module _ (decode : String → Option (Recipe × Bool)) where
    abbrev pub of_validated : Recipe → Option Error → Checked Recipe
    of_validated r none = passed r
    of_validated r (some e) = refused e

    abbrev pub of_decoded : Option (Recipe × Bool) → Checked Recipe
    of_decoded none = refused (validation "recipe must be JSON with no unknown fields")
    of_decoded (some (r, ends)) =
        if ends
        then of_validated r (validate_recipe r)
        else refused (validation "recipe must contain one JSON value")

    unfoldable pub decode_recipe : String → Checked Recipe
    decode_recipe text =
        if ltb 65536 (len text)
        then refused (validation "recipe must be at most 64 KiB")
        else of_decoded (decode text)
