-- ===== src/Application/Builds.antt =====
-- internal/application/builds.go: overrides by a reported build, and the reports themselves.
pub mod Recorded
use envy.Common.{
  ℕ, ◌+◌, ℤ, pos, negsuc, lez, String, Bool, true, false, not, ◌&&◌, Option, none, some, List, [],
  ◌∷◌, Map, get_or, lookup, insert, all, length, leb, ◌==◌, if◌then◌else◌, str_eq, codes,
  starts_with, ◌<>◌,
}
use envy.Model.{Build, BuildReport, SourceRepository, ComponentOverride, Time, Platform}
use envy.Domain.Catalog.{is_digit}
use envy.Application.Requests.{hex_digits, is_digest}
use envy.Application.Backend.{
  Backend, Formats, Action, returned, ◌>>=◌, ◌>>◌, pure, query, reject, require, read_build,
  record_build, read_repository, enable_repository, check_repository, resolve_commit,
  check_image as ask_image, read_clock, wake_github,
}

module _ (b : Backend) where
  abbrev pub require_builds : Action (Unit {0})
  require_builds =
      if b.has_builds then pure tt else reject "unavailable" "build catalog is unavailable"

  -- `sourceReady`
  unfoldable pub source_ready : Action (Unit {0})
  source_ready =
      if b.has_source_control then pure tt else reject "unavailable" "GitHub App is not configured"

  -- `s.cfg.SourceControl.Check`
  abbrev ask_check : SourceRepository → Action (Unit {0})
  ask_check r = query (check_repository r) (λ h. b.check_repository h r)

  abbrev ask_repository : String → String → Action SourceRepository
  ask_repository project id = query (read_repository project id) (λ h. b.repository h project id)

  unfoldable pub eligible_repository : String → String → Action SourceRepository
  eligible_repository project id = do
    require_builds
    r ← ask_repository project id
    if r.enabled then pure tt else reject "conflict" "repository is disabled"
    source_ready
    ask_check r
    pure r

  unfoldable pub check_image : String → Action (Unit {0})
  check_image image =
      if b.has_registry
      then query (ask_image image) (λ h. b.check_image h image)
      else reject "unavailable" "image registry lookup is not configured"

  -- The override that a build stands for.
  unfoldable pub resolve_build : String → String → String → Action ComponentOverride
  resolve_build project component build_id = do
    require_builds
    build ← query (read_build project build_id) (λ h. b.build h project build_id)
    require (str_eq build.component component) "build does not belong to the selected component"
    r ← eligible_repository project build.repository
    require (starts_with build.image (get_or "" component r.images <> "@sha256:"))
        "build no longer matches repository image mapping"
    check_image build.image
    pure (record { image = build.image; build_id = build.id; source = some build })

  unfoldable pub resolve_override : String → String → ComponentOverride → Action ComponentOverride
  resolve_override project component o =
      if str_eq o.build_id "" then pure o else resolve_build project component o.build_id

  -- The loop over the overrides; `out` holds those resolved before.
  unfoldable pub resolve_each :
      String → Map ComponentOverride → Map ComponentOverride → Action (Map ComponentOverride)
  resolve_each project out [] = pure out
  resolve_each project out ((component, o) ∷ rest) = do
    o' ← resolve_override project component o
    resolve_each project (insert component o' out) rest

  unfoldable pub resolve_overrides : String → Map ComponentOverride → Action (Map ComponentOverride)
  resolve_overrides project overrides = resolve_each project [] overrides

  -- What is checked again before a repository is enabled.
  unfoldable pub recheck : String → String → Bool → Action (Unit {0})
  recheck project id false = pure tt
  recheck project id true = do r ← ask_repository project id; source_ready; ask_check r

  unfoldable pub enable_source_repository : String → String → Bool → Action SourceRepository
  enable_source_repository project id enabled = do
    require_builds
    recheck project id enabled
    query (enable_repository project id enabled) (λ h. b.enable h project id enabled)

-- The regular expression `runID`, on a text's codes.
abbrev pub run_id_codes : List ℕ → Bool
run_id_codes [] = false
run_id_codes (c ∷ cs) = is_digit c && not (c == b'0') && all is_digit cs && leb (length cs) 19

-- `time.Now().Add(5*time.Minute)`
abbrev pub five_minutes : ℕ
five_minutes = 300_000_000_000

-- The parts of `strings.Split(image, "@")` where it has two.
abbrev pub split_image : List ℕ → Option (List ℕ × List ℕ)
split_image [] = none
split_image (c ∷ cs) =
    let rest = split_image cs in
    if c == b'@'
    then (if all (λ d. not (d == b'@')) cs then some ([], cs) else none)
    else elim rest [ none ↦ none | some p ↦ some (c ∷ p.0, p.1) ]

abbrev pub same_codes : List ℕ → List ℕ → Bool
same_codes [] [] = true
same_codes (c ∷ cs) (d ∷ ds) = c == d && same_codes cs ds
same_codes _ _ = false

-- Whether an image stands at the approved location of its component and is pinned to a digest.
unfoldable pub at_location : Option String → String → Bool
at_location none image = false
at_location (some location) image = elim (split_image (codes image)) [
  | none ↦ false
  | some p ↦ same_codes p.0 (codes location) && is_digest p.1
]

-- An attempt that the checks have let pass.
abbrev pub attempt_number : ℤ → ℕ
attempt_number (pos n) = n
attempt_number (negsuc n) = 0

abbrev pub run_url : Formats → String → String → ℕ → String
run_url f repository run number =
    "https://github.com/"
    <> (repository <> ("/actions/runs/" <> (run <> ("/attempts/" <> f.decimal number))))

module _ (p : Platform) (f : Formats) (b : Backend) where
  unfoldable pub report_ok : Time → BuildReport → Bool
  report_ok now report =
      hex_digits 40 (codes report.revision)
      && run_id_codes (codes report.run_id)
      && lez (pos 1) report.attempt
      && lez report.attempt (pos 100_000)
      && not (report.built_at == 0)
      && leb report.built_at (now + five_minutes)

  -- The build that a report stands for.
  unfoldable pub reported_build : String → String → SourceRepository → BuildReport → Build
  reported_build project id r report =
      let number = attempt_number report.attempt in
      record {
        component = report.component;
        revision = report.revision;
        image = report.image;
        run_id = report.run_id;
        attempt = number;
        built_at = report.built_at;
        id = p.digest 32 (f.encode_build project id report.component report.run_id number);
        project = project;
        repository = id;
        github_repository = r.github_repository;
        run_url = run_url f r.github_repository report.run_id number;
      }

  unfoldable pub record_report : String → String → BuildReport → Action Build
  record_report project id report = do
    now ← query read_clock (λ h. returned (b.now h))
    require (report_ok now report)
        "build requires a full lowercase commit SHA, numeric run_id, positive attempt, and valid built_at"
    r ← eligible_repository b project id
    require (at_location (lookup report.component r.images) report.image)
        "image must use the component's approved registry location and sha256 digest"
    sha ← query (resolve_commit r report.revision) (λ h. b.resolve h r report.revision)
    require (str_eq sha report.revision) "commit resolution did not match the reported revision"
    check_image b report.image
    let build = reported_build project id r report
    result ← query (record_build build) (λ h. b.record_build h build)
    query wake_github (λ h. returned tt)
    pure result
