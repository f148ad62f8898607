-- ===== src/Scenarios/Recipes.antt =====
-- internal/domain/recipe.go: a recipe that is decoded, and the theorem about decoding applied to it.
use envy.Common.{String, true, false, Option, none, some, [], ◌∷◌}
use envy.Model.{Url}
use envy.Domain.Recipe.{Recipe, decode_recipe}
use envy.Domain.Recipe.Accepted.{Decoded, decode_recipe-IsRecipe}
use envy.Scenarios.Fixtures.{platform}

abbrev recipe : Recipe
recipe = record {
  message_isolation = false;
  api_version = "envy/recipe-v1";
  project = "shop";
  baseline = "staging";
  baseline_revision = "r1";
  overrides = some (
      ("web", record { image = "registry.test/web@sha256:ab"; build_id = ""; source = none }) ∷ []);
  ttl = "1m";
  frontends =
      record {
        name = "storefront";
        repository = "https://git.test/shop/storefront";
        revision = "0123456789abcdef0123456789abcdef01234567";
      }
      ∷ [];
}

abbrev parse_url : String → Option Url
parse_url raw = some (record {
  scheme = "https";
  hostname = raw;
  host = raw;
  port = "";
  has_user = false;
  path = "";
  raw_query = "";
  fragment = "";
})

decode_recipe-IsRecipe_example :
    Decoded platform parse_url
      (λ host. false)
      (λ image. true)
      "{}"
      (decode_recipe platform parse_url
        (λ host. false)
        (λ image. true)
        (λ text. some (recipe, true))
        "{}")
decode_recipe-IsRecipe_example =
    decode_recipe-IsRecipe platform parse_url (λ host. false) (λ image. true)
      (λ text. some (recipe, true)) "{}"
