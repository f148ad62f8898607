-- ===== src/Application/Lookups.antt =====
-- internal/application/builds.go and preview.go: the lookups that creation and updates share only
-- read.
use envy.Common.{ℤ, ◌≡◌, refl, String, Bool, true, false, Option, none, some}
use envy.Model.{Baseline, Component, PreviewSelection, PreviewProfile}
use envy.Application.Backend.{
  check_repository, read_repository, Backend, Formats, Query, create_composition,
  update_composition, destroy_composition, approve_profile, record_build, register_component,
  store_project, store_baseline, enable_repository, wake_github,
}
use envy.Application.Builds
use envy.Application.Builds.{
  eligible_repository, check_image, resolve_build, resolve_override, resolve_each,
  resolve_overrides, source_ready,
}
use envy.Application.Previews.{
  discover_preview, resolve_preview, with_profile, without_profile, still_approved,
}
use envy.Application.Allows.{
  Allows, Allows-unless, Allows-pure, Allows-fail, Allows-ask, Allows-if, Allows-Answered, Answered,
  Anything, Allows-then, Allows-after, reading_rules,
}

-- Whether a query leaves the store and the providers as they are.
abbrev pub is_read : Query → Bool
is_read (create_composition _ _ _ _) = false
is_read (update_composition _ _ _) = false
is_read (destroy_composition _) = false
is_read (approve_profile _ _) = false
is_read (record_build _) = false
is_read (register_component _) = false
is_read (store_project _) = false
is_read (store_baseline _) = false
is_read (enable_repository _ _ _) = false
is_read wake_github = false
is_read _ = true

module _ {P : Query → Type 0} (reads : (q : Query) → is_read q ≡ true → P q) where
  module _ (f : Formats) (b : Backend) where
    discover_preview-Allows :
        (project baseline component : String) (selection : PreviewSelection)
        → Allows P Anything (discover_preview f b project baseline component selection)
    unfolding discover_preview
    discover_preview-Allows project baseline component selection =
        search (reads, reading_rules) depth 20

    without_profile-Allows :
        (c : Component) (expected : ℤ) → Allows P Anything (without_profile f b c expected)
    unfolding without_profile
    without_profile-Allows c expected = search reading_rules depth 20

    with_profile-Allows :
        (base : Baseline) (c : Component) (expected : ℤ) (profile : PreviewProfile)
        → Allows P Anything (with_profile f b base c expected profile)
    unfolding with_profile
    with_profile-Allows base c expected profile =
        search (reading_rules, discover_preview-Allows) depth 20

    pub resolve_preview-Allows :
        (base : Baseline) (c : Component) (expected : ℤ)
        → Allows P Anything (resolve_preview f b base c expected)
    unfolding resolve_preview
    resolve_preview-Allows base c expected =
        Allows-if b.has_previews _ _ (Allows-after _ _ _ of_profile (reads _ refl))
          (Allows-if _ _ _ (Allows-pure _ tt) (Allows-fail _))
      where
        of_profile :
            (o : Option PreviewProfile)
            → Allows P Anything (envy.Application.Previews.of_profile f b base c expected o)
        of_profile none = without_profile-Allows c expected
        of_profile (some profile) = with_profile-Allows base c expected profile

  module _ (b : Backend) where
    pub require_builds-Allows : Allows P Anything (Builds.require_builds b)
    require_builds-Allows = Allows-if b.has_builds _ _ (Allows-pure _ tt) (Allows-fail _)

    pub check_image-Allows : (image : String) → Allows P Anything (check_image b image)
    unfolding check_image
    check_image-Allows image =
        Allows-if b.has_registry _ _ (Allows-ask _ _ (reads _ refl)) (Allows-fail _)

    source_ready-Allows : Allows P Anything (source_ready b)
    unfolding source_ready
    source_ready-Allows = Allows-if b.has_source_control _ _ (Allows-pure _ tt) (Allows-fail _)

    -- A repository that is eligible is the one that the store returned, and enabled.
    pub eligible_repository-Allows :
        (project id : String)
        → Allows P
            (λ r. (r.enabled ≡ true) × Answered (λ h. b.repository h project id) r)
            (eligible_repository b project id)
    unfolding eligible_repository
    eligible_repository-Allows project id = Allows-then _ _ require_builds-Allows (λ _.
        Allows-Answered _ _ _
          (λ r known. Allows-unless r.enabled _ _ (λ _ on. Allows-then _ _ source_ready-Allows (λ _.
            Allows-after _ _ _ (λ _. Allows-pure r (on, known)) (reads (check_repository r) refl))))
          (reads (read_repository project id) refl))
