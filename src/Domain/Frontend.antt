-- ===== src/Domain/Frontend.antt =====
-- internal/domain/frontend.go: frontends that are built against a composition.
pub mod Available
use envy.Common.{
  ℕ, ◌-◌, suc, String, Bool, true, false, not, ◌&&◌, ◌||◌, Option, none, some, List, [], ◌∷◌, all,
  any, length, get_or, holds, leb, ltb, ◌==◌, if◌then◌else◌, str_eq, codes, len,
}
use Prim.Native.String.{slice}
use envy.Model.{Composition, Endpoint, Phase, Phase-discrete, Error, validation, Time, Url}
use envy.Domain.Catalog.{valid_catalog_id, is_digit}

pub record FrontendKey : Type 0 where
  pub project : String
  pub frontend : String
  pub revision : String

pub record FrontendCheck : Type 0 where
  pub composition_generation : ℕ
  pub status : String
  pub message : String
  pub reported_at : Time

pub record FrontendBinding : Type 0 where
  pub project : String
  pub frontend : String
  pub revision : String
  pub composition : String
  pub repository : String
  pub version : ℕ
  pub url : String
  pub check : Option FrontendCheck
  pub created_at : Time
  pub updated_at : Time

pub record FrontendBindingView : Type 0 where
  pub binding : FrontendBinding
  pub composition_phase : Phase
  pub composition_generation : ℕ
  pub expires_at : Time
  pub ready : Bool
  pub verification_level : String
  pub check_state : String

abbrev pub is_hex : ℕ → Bool
is_hex c = is_digit c || leb b'a' c && leb c b'f'

-- The regular expression `frontendRevision`.
unfoldable pub is_frontend_revision : String → Bool
is_frontend_revision text =
    all is_hex (codes text) && (length (codes text) == 40 || length (codes text) == 64)

unfoldable pub validate_frontend_key : FrontendKey → Option Error
validate_frontend_key k =
    if not (valid_catalog_id k.project)
      || not (valid_catalog_id k.frontend)
      || not (is_frontend_revision k.revision)
    then some (
        validation
          "project/frontend must be catalog identifiers and revision a full lowercase Git commit SHA (40 or 64 hex characters)")
    else none

-- `strings.HasSuffix`
abbrev ends_with : String → String → Bool
ends_with s t = leb (len t) (len s) && str_eq (slice s (len s - len t) (len s)) t

-- A character that no recorded link has.
abbrev is_forbidden : ℕ → Bool
is_forbidden c = c == 13 || c == 10 || c == b'\\'

module _ (parse_url : String → Option Url) (is_loopback : String → Bool) where
  abbrev is_local : Url → Bool
  is_local u =
      str_eq u.scheme "http"
      && (str_eq u.hostname "localhost"
          || ends_with u.hostname ".localhost"
          || is_loopback u.hostname)

  unfoldable pub public_frontend_url : String → Bool → Bool
  public_frontend_url raw local_http = elim (parse_url raw) [
    | none ↦ false
    | some u ↦
        not (
          ltb 2048 (len raw)
          || str_eq u.hostname ""
          || u.has_user
          || not (str_eq u.raw_query "")
          || not (str_eq u.fragment "")
          || any is_forbidden (codes raw))
        && (str_eq u.scheme "https" || local_http && is_local u)
  ]

abbrev gone_error : Composition → Error
gone_error c = record {
  code = "gone";
  message = "bound composition is expired or being destroyed; no fallback is available";
  retryable = false;
  project = c.project;
  composition = c.id;
}

abbrev conflict_error : Composition → Error
conflict_error c = record {
  code = "conflict";
  message = "bound composition is not ready for a frontend build";
  retryable = true;
  project = c.project;
  composition = c.id;
}

-- `c.Endpoints["public"]`
abbrev pub public_endpoint : Composition → Endpoint
public_endpoint c = get_or (record { url = ""; ready = false }) "public" c.endpoints

abbrev is_phase : Phase → Composition → Bool
is_phase phase c = holds (Phase-discrete c.phase phase)

abbrev pub is_gone : Composition → Time → Bool
is_gone c now =
    c.deletion_requested
    || is_phase Phase.destroying c
    || is_phase Phase.destroyed c
    || not (ltb now c.expires_at)

abbrev pub is_served : Composition → Bool
is_served c =
    is_phase Phase.ready c
    && c.generation == c.observed_generation
    && (public_endpoint c).ready
    && not (str_eq (public_endpoint c).url "")

unfoldable pub frontend_composition_available : Composition → Time → Bool → Option Error
frontend_composition_available c now ready =
    if is_gone c now
    then some (gone_error c)
    else if ready && not (is_served c)
    then some (conflict_error c)
    else none

abbrev is_absent : Option Error → Bool
is_absent none = true
is_absent (some e) = false

unfoldable pub check_state : Bool → ℕ → Option FrontendCheck → String
check_state ready generation none = "not_reported"
check_state ready generation (some check) =
    if ready && check.composition_generation == generation then "current" else "stale"

unfoldable pub view_frontend : FrontendBinding → Composition → Time → FrontendBindingView
view_frontend b c now =
    let ready = is_absent (frontend_composition_available c now true) in
    record {
      binding = b;
      composition_phase = c.phase;
      composition_generation = c.generation;
      expires_at = c.expires_at;
      ready = ready;
      verification_level = if str_eq c.verification_level "" then "none" else c.verification_level;
      check_state = check_state ready c.generation b.check;
    }
