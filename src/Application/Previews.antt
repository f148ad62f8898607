-- ===== src/Application/Previews.antt =====
-- internal/application/preview.go and onboarding_plan.go: discovery and approval of preview
-- profiles, and the snapshot that a composition captures.
use envy.Common.{
  ℤ, pos, lez, is_zero, String, Bool, not, ◌&&◌, ◌||◌, Option, none, some, ◌++◌, map, has_key,
  is_empty, if◌then◌else◌, str_eq, contains_text,
}
use envy.Model.{
  Baseline, Component, PreviewSelection, PreviewReport, PreviewProfile, PreviewApproval,
  PreviewSnapshot, PlanningBlocker, Err, domain_error, wrapped, noted, joined, Error, validation,
  not_found, error_text,
}
use envy.Application.Requests.{is_deployment_profile, is_revision}
use envy.Application.Backend.{
  Backend, Formats, Action, ◌>>=◌, ◌>>◌, pure, fail, query, invalid, reject, require, read_baseline,
  read_component, read_profile, approve_profile, discover,
}

-- `blockerForCode`
unfoldable pub blocker_for_code : String → String × String
blocker_for_code code =
    if str_eq code "permission_denied"
    then (
      "permission_denied",
      "Grant the named source-read permission to the installation, then retry.",
    )
    else if str_eq code "not_found"
    then (
      "missing_contract", "Register the named baseline or component, then review the plan again.",
    )
    else if str_eq code "conflict"
    then (
      "stale_approval",
      "Inspect the changed baseline or source workload and obtain fresh approval.",
    )
    else if str_eq code "unavailable"
    then ("dependency_unknown", "Restore the unavailable integration and retry planning.")
    else ("invalid_request", "Correct the request and review the plan again.")

abbrev or_later : Option Error → Option Error → Option Error
or_later (some e) _ = some e
or_later none o = o

-- `errors.AsType[*domain.Error]`: the first in the tree.
unfoldable pub as_domain : Err → Option Error
as_domain (domain_error e) = some e
as_domain (wrapped _ e) = as_domain e
as_domain (noted e _) = as_domain e
as_domain (joined a b) = or_later (as_domain a) (as_domain b)
as_domain _ = none

abbrev code_of : Option Error → String × String
code_of none = ("invalid_request", "Correct the request and review the plan again.")
code_of (some e) = blocker_for_code e.code

-- The `switch` on the message in lower case, over what the error's code says.
unfoldable pub classify : String → String × String → String × String
classify message default =
    if contains_text message "permission"
      || contains_text message "forbidden"
      || contains_text message "unauthorized"
    then ("permission_denied", "Grant the named read permission to the installation, then retry.")
    else if contains_text message "unsupported" || contains_text message "does not support"
    then ("unsupported_shape", "Select a supported workload shape or update its approved contract.")
    else if contains_text message "requires preview discovery"
        || contains_text message "no preview profile"
    then ("approval_required", "Discover the named workload and approve its preview profile.")
    else if contains_text message "cannot read secret"
        || contains_text message "cannot read configmap"
    then (
      "permission_denied",
      "Grant named get permission or provision the missing dependency, then discover again.",
    )
    else if contains_text message "ready rollout"
    then ("source_not_ready", "Wait for the named source Deployment rollout to become ready.")
    else default

module _ (f : Formats) where
  unfoldable pub planning_blocker : Err → String → String → PlanningBlocker
  planning_blocker e component source =
      let (code, action) = classify (f.lower (error_text e)) (code_of (as_domain e)) in
      record {
        code = code;
        component = component;
        source = source;
        message = error_text e;
        next_action = action;
      }

  -- The finding for a blocker of a discovery.
  unfoldable pub discovery_finding : String → String → PlanningBlocker
  discovery_finding component message =
      let finding =
        planning_blocker (domain_error (validation message)) component
          "source workload discovery" in
      if str_eq finding.code "invalid_request"
      then record finding {
        code = "unsupported_shape";
        next_action =
            "Adjust the named source workload or its approved preview policy, then discover again.";
      }
      else finding

  module _ (b : Backend) where
    unfoldable pub discover_preview :
        String → String → String → PreviewSelection → Action PreviewReport
    discover_preview project baseline component selection = do
      if b.has_discoverer then pure tt else reject "unavailable" "preview discovery is unavailable"
      base ← query (read_baseline project baseline) (λ h. b.baseline h project baseline)
      c ← query (read_component project component) (λ h. b.component h project component)
      require c.overridable "component does not permit overrides"
      require (has_key component base.components) "component is not bound in baseline"
      report ← query (discover base c selection) (λ h. b.discover h base c selection)
      pure (record report {
        findings = report.findings ++ map (discovery_finding component) report.blockers;
      })

    abbrev ask_profile : String → String → String → Action (Option PreviewProfile)
    ask_profile project baseline component =
        query (read_profile project baseline component)
          (λ h. b.profile h project baseline component)

    abbrev present : Option PreviewProfile → Action PreviewProfile
    present none = fail (domain_error (not_found "preview profile not found"))
    present (some p) = pure p

    unfoldable pub inspect_preview : String → String → String → Action PreviewProfile
    inspect_preview project baseline component =
        if b.has_previews
        then ask_profile project baseline component >>= present
        else fail (domain_error (not_found "preview profile not found"))

    unfoldable pub approve_preview :
        String → String → String → PreviewApproval → Action PreviewProfile
    approve_preview project baseline component a = do
      require
          (a.confirm_connectivity
            && not (str_eq a.inspection "")
            && lez (pos 0) a.expected_revision)
          "approval requires inspection, expected_revision and confirmed service connectivity"
      report ← discover_preview project baseline component a.selection
      if str_eq report.inspection a.inspection
          then pure tt
          else reject "conflict" "source changed since discovery; discover again"
      require (is_empty report.blockers)
          "preview discovery has blockers; resolve them before approval"
      if b.has_previews then pure tt else reject "unavailable" "preview profile storage unavailable"
      let profile : PreviewProfile = record {
        project = project;
        baseline = baseline;
        component = component;
        revision = 0;
        selection = report.selection;
        source_uid = report.source.uid;
        contract = report.contract;
        dependencies = report.dependencies;
      }
      query (approve_profile profile a.expected_revision)
          (λ h. b.approve h profile a.expected_revision)

    -- Whether a discovery still agrees with an approved profile.
    unfoldable pub still_approved : PreviewReport → PreviewProfile → Bool
    still_approved report profile =
        is_empty report.blockers
        && str_eq report.source.uid profile.source_uid
        && str_eq report.contract profile.contract

    unfoldable pub without_profile : Component → ℤ → Action (Option PreviewSnapshot)
    without_profile c expected = do
      require (not (is_deployment_profile c.profile))
          "deployment-derived component requires preview discovery and approval"
      require (is_zero expected) "no preview profile exists"
      pure none

    unfoldable pub with_profile :
        Baseline → Component → ℤ → PreviewProfile → Action (Option PreviewSnapshot)
    with_profile base c expected profile = do
      if is_zero expected || is_revision expected profile.revision
          then pure tt
          else reject "conflict" "preview profile revision changed"
      report ← discover_preview base.project base.id c.id profile.selection
      if still_approved report profile
          then pure tt
          else reject "conflict"
              "deployed workload no longer matches approved preview contract; discover and approve again"
      pure (some (record report.snapshot { revision = profile.revision }))

    abbrev pub of_profile :
        Baseline → Component → ℤ → Option PreviewProfile → Action (Option PreviewSnapshot)
    of_profile base c expected none = without_profile c expected
    of_profile base c expected (some profile) = with_profile base c expected profile

    unfoldable pub resolve_preview : Baseline → Component → ℤ → Action (Option PreviewSnapshot)
    resolve_preview base c expected =
        if b.has_previews
        then ask_profile base.project base.id c.id >>= of_profile base c expected
        else (if is_zero expected && not (is_deployment_profile c.profile)
            then pure none
            else invalid "no preview profile exists")
