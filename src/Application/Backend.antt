-- ===== src/Application/Backend.antt =====
-- internal/application/service.go: what the service asks of the store and the providers behind its
-- interfaces. Each runs elsewhere, so a call is a query, and its answer is any function of the
-- queries made before: a `Backend`.
use envy.Common.{
  ℕ, ◌*◌, ◌==◌, str_eq, ℤ, pos, is_zero, String, Bool, Option, none, some, List, ◌∷◌, Map,
  if◌then◌else◌,
}
use envy.Model.{
  Composition, Project, Component, Baseline, Build, SourceRepository, PreviewProfile, PreviewReport,
  PreviewSelection, CreateRequest, UpdateRequest, Url, Err, domain_error, Error, validation, Time,
}

pub data Query : Type 0 where
  read_baseline : String → String → Query
  read_component : String → String → Query
  read_composition : String → Query
  list_compositions : String → String → ℤ → Query
  replay_create : String → String → Query
  create_composition : Composition → String → String → ℕ → Query
  update_composition : String → UpdateRequest → String → Query
  destroy_composition : String → Query
  read_profile : String → String → String → Query
  approve_profile : PreviewProfile → ℤ → Query
  discover : Baseline → Component → PreviewSelection → Query
  validate_provider : Baseline → Query
  read_build : String → String → Query
  record_build : Build → Query
  read_repository : String → String → Query
  enable_repository : String → String → Bool → Query
  check_repository : SourceRepository → Query
  resolve_commit : SourceRepository → String → Query
  check_image : String → Query
  register_component : Component → Query
  store_project : Project → Query
  validate_catalog : Baseline → Query
  store_baseline : Baseline → Query
  random_id : Query
  read_clock : Query
  wake_github : Query

-- The queries made so far, the latest first.
abbrev pub History : Type 0
History = List Query

pub data Outcome (A : Type 0) : Type 0 where
  returned : A → Outcome A
  failed : Err → Outcome A

abbrev pub Action : Type 0 → Type 0
Action A = History → Outcome A × History

abbrev pub proceed : {A B : Type 0} → Outcome A → (A → Action B) → Action B
proceed (returned a) f h = f a h
proceed (failed e) f h = (failed e, h)

infixl 5 ◌>>=◌ ◌>>◌
unfoldable pub ◌>>=◌ : {A B : Type 0} → Action A → (A → Action B) → Action B
◌>>=◌ m f h = let (r, h') = m h in proceed r f h'

abbrev pub ◌>>◌ : {B : Type 0} → Action (Unit {0}) → Action B → Action B
m >> k = m >>= λ _. k

unfoldable pub pure : {A : Type 0} → A → Action A
pure a h = (returned a, h)

unfoldable pub fail : {A : Type 0} → Err → Action A
fail e h = (failed e, h)

unfoldable pub query : {A : Type 0} → Query → (History → Outcome A) → Action A
query q answer h = (answer h, q ∷ h)

-- `if err != nil { … }` on an error that is handled here: the outcome as a value.
unfoldable pub attempt : {A : Type 0} → Action A → Action (Outcome A)
attempt m h = let (r, h') = m h in (returned r, h')

abbrev pub invalid : {A : Type 0} → String → Action A
invalid message = fail (domain_error (validation message))

-- `&domain.Error{Code: code, Message: message}`
abbrev pub coded_error : String → String → Error
coded_error code message = record (validation message) { code = code }

abbrev pub reject : {A : Type 0} → String → String → Action A
reject code message = fail (domain_error (coded_error code message))

-- A check that fails with a validation message.
unfoldable pub require : Bool → String → Action (Unit {0})
require b message = if b then pure tt else invalid message

-- A check that returned an error or none.
unfoldable pub check : Option Error → Action (Unit {0})
check none = pure tt
check (some e) = fail (domain_error e)

-- The optional interfaces of the store and the providers that may be nil are the flags.
pub record Backend : Type 0 where
  pub baseline : History → String → String → Outcome Baseline
  pub component : History → String → String → Outcome Component
  pub composition : History → String → Outcome Composition
  pub list : History → String → String → ℤ → Outcome (List Composition × String)
  pub can_replay : Bool
  pub replay : History → String → String → Outcome (Option Composition)
  pub create : History → Composition → String → String → ℕ → Outcome Composition
  pub update : History → String → UpdateRequest → String → Outcome Composition
  pub destroy : History → String → Outcome Composition
  pub has_previews : Bool
  pub profile : History → String → String → String → Outcome (Option PreviewProfile)
  pub approve : History → PreviewProfile → ℤ → Outcome PreviewProfile
  pub has_discoverer : Bool
  pub discover : History → Baseline → Component → PreviewSelection → Outcome PreviewReport
  pub has_messaging : Bool
  pub validate : History → Baseline → Outcome (Unit {0})
  pub has_builds : Bool
  pub build : History → String → String → Outcome Build
  pub record_build : History → Build → Outcome Build
  pub repository : History → String → String → Outcome SourceRepository
  pub enable : History → String → String → Bool → Outcome SourceRepository
  pub has_source_control : Bool
  pub check_repository : History → SourceRepository → Outcome (Unit {0})
  -- the full commit SHA of a reference
  pub resolve : History → SourceRepository → String → Outcome String
  pub has_registry : Bool
  pub check_image : History → String → Outcome (Unit {0})
  pub has_catalog : Bool
  pub register_component : History → Component → Outcome Component
  pub register_project : History → Project → Outcome Project
  pub register_baseline : History → Baseline → Outcome Baseline
  pub has_validator : Bool
  pub validate_catalog : History → Baseline → Map Component → Outcome (Unit {0})
  pub random_id : History → Outcome String
  pub now : History → Time

-- `RandomID`
abbrev pub draw_id : Backend → Action String
draw_id b = query random_id (λ h. b.random_id h)

-- How texts are read and written: `url.Parse` and `URL.String`, `Duration.String`, the JSON of a
-- request and of a build's identity, `strconv.Itoa` and `strings.ToLower`.
pub record Formats : Type 0 where
  pub parse_url : String → Option Url
  pub url_text : Url → String
  pub duration_text : ℕ → String
  pub encode_request : CreateRequest → String
  pub encode_build : String → String → String → String → ℕ → String
  pub decimal : ℕ → String
  pub lower : String → String

-- `Config`; a duration may be set below zero.
pub record Config : Type 0 where
  pub installation : String
  pub approved_image_pull_secrets : List String
  pub default_ttl : ℤ
  pub max_ttl : ℤ
  pub max_compositions : ℕ
  pub preview_base_url : String

abbrev or_hours : ℕ → ℤ → ℤ
or_hours n d = if is_zero d then pos (n * 3_600_000_000_000) else d

-- `New`: the defaults of the configuration.
unfoldable pub new_config : Config → Config
new_config cfg = record cfg {
  default_ttl = or_hours 8 cfg.default_ttl;
  max_ttl = or_hours 24 cfg.max_ttl;
  max_compositions = if cfg.max_compositions == 0 then 20 else cfg.max_compositions;
  preview_base_url =
      if str_eq cfg.preview_base_url "" then "http://envy.localhost:8080" else cfg.preview_base_url;
}
