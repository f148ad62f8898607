-- ===== src/Application/Requests.antt =====
-- internal/application/service.go, preview.go and catalog.go: the checks of a request that need
-- neither the store nor a provider.
pub mod Validity
use envy.Common.{
  ℕ, suc, ◌*◌, ℤ, pos, negsuc, lez, is_zero, String, Bool, true, false, not, ◌&&◌, ◌||◌, Option,
  none, some, List, [], ◌∷◌, Map, get_or, has_key, any, all, length, leb, ltb, ◌==◌, if◌then◌else◌,
  str_eq, codes, len, is_empty, ◌<>◌,
}
use envy.Model.{
  CreateRequest, UpdateRequest, ComponentOverride, Component, Error, validation, Platform,
}
use envy.Domain.Catalog.{valid_catalog_id, override_names, max_overrides, is_digit}
use envy.Domain.Workload.{is_space, reject_if, first_error}
use envy.Domain.Messaging.{Checked, passed, refused, ◌>>=◌, ◌>>◌, require}
use envy.Application.Backend.{Config, Formats}

-- `strings.TrimSpace(s) == ""`
abbrev pub blank : String → Bool
blank text = all is_space (codes text)

-- `strings.ContainsAny`
abbrev pub contains_any : String → List ℕ → Bool
contains_any text cs = any (λ c. any (λ d. c == d) cs) (codes text)

unfoldable pub validate_page : String → ℤ → Option Error
validate_page after limit =
    reject_if (not (lez (pos 1) limit && lez limit (pos 100))) "limit must be between 1 and 100" (
      reject_if (ltb 128 (len after) || contains_any after (0 ∷ 13 ∷ 10 ∷ []))
        "invalid pagination cursor" none)

abbrev pub is_hex : ℕ → Bool
is_hex c = is_digit c || leb b'a' c && leb c b'f'

-- A digit that `hex.DecodeString` takes.
abbrev is_any_hex : ℕ → Bool
is_any_hex c = is_hex c || leb b'A' c && leb c b'F'

-- `ComponentOverride{}`
abbrev pub no_override : ComponentOverride
no_override = record { image = ""; build_id = ""; source = none }

-- The body of the loop over the overrides.
unfoldable pub validate_override : String → ComponentOverride → Option Error
validate_override component o =
    reject_if (not (valid_catalog_id component)) "invalid override component ID" (
      reject_if (elim o.source [ none ↦ false | some _ ↦ true ]) "source provenance is read-only"
        (if not (str_eq o.build_id "")
          then reject_if (not (str_eq o.image "") || not (len o.build_id == 64))
              "select either image or build_id"
              (reject_if (not (all is_any_hex (codes o.build_id))) "invalid build_id" none)
          else reject_if
              (blank o.image
                || ltb 512 (len o.image)
                || contains_any o.image (32 ∷ 9 ∷ 13 ∷ 10 ∷ []))
              "image must be a nonempty container image reference without whitespace" none))

unfoldable pub validate_each : Map ComponentOverride → List String → Option Error
validate_each overrides [] = none
validate_each overrides (name ∷ names) =
    first_error (validate_override name (get_or no_override name overrides))
      (validate_each overrides names)

abbrev count_message : String
count_message = "between zero and three component overrides are required"

unfoldable pub validate_overrides : Option (Map ComponentOverride) → Option Error
validate_overrides none = some (validation count_message)
validate_overrides (some overrides) =
    reject_if (ltb max_overrides (length overrides)) count_message
      (validate_each overrides (override_names overrides))

-- A map that may be nil, as Go reads it.
abbrev pub or_empty : Option (Map ComponentOverride) → Map ComponentOverride
or_empty none = []
or_empty (some m) = m

unfoldable pub validate_preview_guards : Map ℤ → Map ComponentOverride → Option Error
validate_preview_guards [] overrides = none
validate_preview_guards ((component, revision) ∷ guards) overrides =
    reject_if (not (has_key component overrides) || not (lez (pos 1) revision))
      "expected_preview_revisions requires selected components and positive revisions"
      (validate_preview_guards guards overrides)

-- A duration of the configuration, or the one that stands for zero.
abbrev or_default : ℕ → ℤ → ℤ
or_default d n = if is_zero n then pos d else n

abbrev hours : ℕ → ℕ
hours n = n * 3_600_000_000_000

module _ (p : Platform) (f : Formats) (cfg : Config) where
  -- The TTL asked for, before its bounds are checked.
  unfoldable pub requested_ttl : String → Checked ℤ
  requested_ttl text =
      if str_eq text ""
      then passed (or_default (hours 8) cfg.default_ttl)
      else elim (p.parse_duration text) [
        | none ↦ refused (validation "ttl must be a valid Go duration")
        | some d ↦ passed (pos d)
      ]

  abbrev pub longest_ttl : ℤ
  longest_ttl = or_default (hours 24) cfg.max_ttl

  -- `max.String()` of a bound that is not above zero, where no TTL passes.
  abbrev bound_text : ℤ → String
  bound_text (pos n) = f.duration_text n
  bound_text (negsuc n) = "-" <> f.duration_text (suc n)

  -- A TTL that is positive and at most the bound.
  unfoldable pub bound_ttl : ℤ → Checked ℕ
  bound_ttl (negsuc n) =
      refused (validation ("ttl must be positive and no greater than " <> bound_text longest_ttl))
  bound_ttl (pos n) =
      if ltb 0 n && lez (pos n) longest_ttl
      then passed n
      else refused
          (validation ("ttl must be positive and no greater than " <> bound_text longest_ttl))

  abbrev pub checked : Option Error → Checked (Unit {0})
  checked none = passed tt
  checked (some e) = refused e

  unfoldable pub normalize_create : CreateRequest → Checked (CreateRequest × ℕ)
  normalize_create req = do
    require (not (blank req.project || blank req.baseline)) "project and baseline are required"
    require (not (blank req.name || ltb 128 (len req.name))) "name must contain 1–128 characters"
    checked (validate_preview_guards req.expected_preview_revisions (or_empty req.overrides))
    checked (validate_overrides req.overrides)
    require (is_empty req.resources)
        "resource overrides are not supported; baseline resources are inherited"
    asked ← requested_ttl req.ttl
    ttl ← bound_ttl asked
    passed (record req { resources = []; ttl = f.duration_text ttl }, ttl)

-- The regular expression `[a-f0-9]{n}`
abbrev pub hex_digits : ℕ → List ℕ → Bool
hex_digits n cs = length cs == n && all is_hex cs

abbrev same_prefix : List ℕ → List ℕ → Option (List ℕ)
same_prefix [] cs = some cs
same_prefix (d ∷ ds) [] = none
same_prefix (d ∷ ds) (c ∷ cs) = let rest = same_prefix ds cs in if c == d then rest else none

-- `sha256:[a-f0-9]{64}`
abbrev pub is_digest : List ℕ → Bool
is_digest cs = elim (same_prefix (codes "sha256:") cs) [
  | none ↦ false
  | some rest ↦ hex_digits 64 rest
]

-- The code points of the class `\s`.
abbrev is_blank : ℕ → Bool
is_blank c = c == 9 || c == 10 || c == 12 || c == 13 || c == 32

-- The regular expression `[^\s@]*@sha256:[a-f0-9]{64}$`
abbrev pub pinned_tail : List ℕ → Bool
pinned_tail [] = false
pinned_tail (c ∷ cs) =
    let rest = pinned_tail cs in if c == b'@' then is_digest cs else not (is_blank c) && rest

-- The regular expression `previewImage`.
unfoldable pub valid_preview_image : String → Bool
valid_preview_image image = elim (codes image) [
  | [] ↦ false
  | c ∷ cs ↦ not (c == b'@') && not (is_blank c) && pinned_tail cs
]

-- `IsDeploymentProfile`
unfoldable pub is_deployment_profile : String → Bool
is_deployment_profile profile = str_eq profile "deployment" || str_eq profile "deployment-composite"

-- `validatePullSecrets`
unfoldable pub validate_pull_secrets : List String → List String → Option Error
validate_pull_secrets approved [] = none
validate_pull_secrets approved (name ∷ names) =
    reject_if (not (any (str_eq name) approved))
      ("image pull Secret is not operator-approved: " <> name)
      (validate_pull_secrets approved names)

-- A revision that a client expects, against one that the store counts.
abbrev pub is_revision : ℤ → ℕ → Bool
is_revision expected revision = lez (pos revision) expected && lez expected (pos revision)
