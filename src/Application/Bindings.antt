-- ===== src/Application/Bindings.antt =====
-- internal/application/catalog.go: the tests of a baseline's texts, bindings and contract.
use envy.Common.{
  ℕ, ◌==◌, String, Bool, true, false, not, ◌&&◌, ◌||◌, Option, none, some, List, [], ◌∷◌, ◌++◌, Map,
  all, leb, if◌then◌else◌, str_eq, codes, len,
}
use envy.Model.{Baseline, BaselineBinding, PreviewSelector, VerificationContract, Component}
use envy.Domain.Catalog.{id_matches, valid_catalog_id, is_digit}
use envy.Application.Requests.{contains_any}
use envy.Application.Components.{is_letter}
use envy.Application.Builds.{same_codes}

abbrev onto_first : ℕ → List (List ℕ) → List (List ℕ)
onto_first c [] = (c ∷ []) ∷ []
onto_first c (part ∷ parts) = (c ∷ part) ∷ parts

-- `strings.Split(text, ".")`
abbrev pub split_dots : List ℕ → List (List ℕ)
split_dots [] = [] ∷ []
split_dots (c ∷ cs) =
    let parts = split_dots cs in if c == b'.' then [] ∷ parts else onto_first c parts

-- `strings.CutSuffix`: what stands before the suffix.
abbrev pub cut_suffix : List ℕ → List ℕ → Option (List ℕ)
cut_suffix suffix [] = if same_codes [] suffix then some [] else none
cut_suffix suffix (c ∷ cs) =
    let rest = cut_suffix suffix cs in
    if same_codes (c ∷ cs) suffix
    then some []
    else elim rest [ none ↦ none | some before ↦ some (c ∷ before) ]

abbrev is_header_code : ℕ → Bool
is_header_code c = is_letter c || is_digit c || c == b'-'

abbrev pub header_codes : List ℕ → Bool
header_codes [] = false
header_codes (c ∷ cs) = is_letter c && all is_header_code cs

-- The regular expression `previewHeaderName`, where there is a selector.
unfoldable pub valid_selector : Option PreviewSelector → Bool
valid_selector none = true
valid_selector (some selector) = header_codes (codes selector.header)

abbrev pub is_endpoint_free : Baseline → Bool
is_endpoint_free b = str_eq b.verification.kind "none"

abbrev pub label_or_empty : String → Bool
label_or_empty text = str_eq text "" || valid_catalog_id text

abbrev pub routes_nothing : Baseline → Bool
routes_nothing b =
    str_eq b.endpoint ""
    && str_eq b.routing.gateway ""
    && str_eq b.routing.gateway_namespace ""
    && str_eq b.routing.gateway_section_name ""
    && str_eq b.routing.entry_component ""
    && elim b.routing.preview_selector [ none ↦ true | some _ ↦ false ]

abbrev pub probes_nothing : VerificationContract → Bool
probes_nothing v = str_eq v.path "" && v.expected_status == 0

-- `names[0]`, of a list that is not empty.
abbrev pub first_name : List String → String
first_name [] = ""
first_name (name ∷ names) = name

abbrev pub has_image : BaselineBinding → Bool
has_image binding =
    not (str_eq binding.image "")
    && leb (len binding.image) 512
    && not (contains_any binding.image (32 ∷ 9 ∷ 13 ∷ 10 ∷ []))

-- The parts of the name of a Service in a namespace.
abbrev pub service_parts : String → List (List ℕ) → Bool
service_parts namespace (service ∷ (space ∷ (kind ∷ (cluster ∷ (zone ∷ []))))) =
    same_codes space (codes namespace)
    && id_matches service
    && same_codes (kind ++ (b'.' ∷ (cluster ++ (b'.' ∷ zone)))) (codes "svc.cluster.local")
service_parts namespace _ = false

unfoldable pub is_service : String → BaselineBinding → Bool
is_service namespace binding =
    service_parts namespace (split_dots (codes binding.service_host))
    && leb 1 binding.port
    && leb binding.port 65535

-- What the loop over the components has seen.
pub record Bindings : Type 0 where
  pub profiles : Map Component
  pub seen : List String
  pub hosts : List String

abbrev pub default_contract : VerificationContract → VerificationContract
default_contract v = record v {
  path = if str_eq v.path "" then "/" else v.path;
  expected_status = if v.expected_status == 0 then 200 else v.expected_status;
}
