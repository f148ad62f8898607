-- ===== src/Application/Prepare/Prepared.antt =====
-- internal/application/service.go: what `prepareCreate` returns.
use envy.Common.{◌≡◌, refl, inl, Bool, true, false, Option, none, some, All, All-of}
use envy.Model.{Url, Baseline, CreateRequest, Platform, Err}
use envy.Domain.Catalog.{override_names}
use envy.Domain.Workload.Graph.{validate_execution_graph}
use envy.Domain.Messaging.{Checked, passed, refused}
use envy.Application.Requests.{or_empty}
use envy.Application.Lookups.{is_read}
use envy.Application.Backend.{Backend, Config, Formats, Query, validate_provider, read_baseline}
use envy.Application.Prepare.{
  Preparation, prepare_create, preview_base_url, check_isolation, check_graph, of_checked, of_url,
  valid_base_url, check_revision, check_base_url,
}
use envy.Application.Prepare.Closure.{
  IsClosed, IsAcyclic, missing_dependency-IsClosed, validate_execution_graph-IsAcyclic,
}
use envy.Application.Prepare.Selection.{Selects, Pinned, AllSelected, prepare_each-Allows}
use envy.Application.Allows.{
  Allows, Allows-pure, Allows-fail, Allows-bind, Answered, Allows-then, Allows-Answered,
  Allows-given, Allows-checked, Allows-ask, Allows-if, Anything,
}

module _ (p : Platform) (f : Formats) (b : Backend) (cfg : Config) where
  pub record IsPrepared (req : CreateRequest) (base : Baseline) (prepared : Preparation)
      : Type 0 where
    pub read : Answered (λ h. b.baseline h req.project req.baseline) base
    pub selected :
        All
          (Selects b req.project cfg.approved_image_pull_secrets base prepared.profiles)
          (override_names (or_empty req.overrides))
    pub pinned :
        All
          (Pinned (or_empty req.overrides) prepared.previews)
          (override_names (or_empty req.overrides))
    pub closed : IsClosed prepared.profiles prepared.profiles
    pub acyclic : IsAcyclic prepared.profiles

  module _ {P : Query → Type 0} (reads : (q : Query) → is_read q ≡ true → P q) where
    pub check_graph-Allows : (e : Option Err) → Allows P (λ _. e ≡ none) (check_graph e)
    check_graph-Allows none = Allows-pure tt refl
    check_graph-Allows (some e) = Allows-fail e

    pub of_checked-Allows :
        {A : Type 0} (m : Checked A) → Allows P (λ a. m ≡ passed a) (of_checked p f b cfg m)
    of_checked-Allows (passed a) = Allows-pure a refl
    of_checked-Allows (refused e) = Allows-fail _

    of_url-Allows : (o : Option Url) → Allows P Anything (of_url p f b cfg o)
    of_url-Allows none = Allows-fail _
    of_url-Allows (some u) = Allows-if (valid_base_url u) _ _ (Allows-pure u tt) (Allows-fail _)

    pub preview_base_url-Allows : Allows P Anything (preview_base_url p f b cfg)
    unfolding preview_base_url
    preview_base_url-Allows = of_url-Allows (f.parse_url cfg.preview_base_url)

    check_isolation-Allows :
        (base : Baseline) (isolated : Bool)
        → Allows P Anything (check_isolation p f b cfg base isolated)
    unfolding check_isolation
    check_isolation-Allows base false = Allows-pure tt tt
    check_isolation-Allows base true =
        Allows-given _ _ _ (λ _ _. Allows-ask _ _ (reads (validate_provider base) refl))

    check_revision-Allows :
        (req : CreateRequest) (base : Baseline)
        → Allows P Anything (check_revision p f b cfg req base)
    check_revision-Allows req base = Allows-if _ _ _ (Allows-pure tt tt) (Allows-fail _)

    check_base_url-Allows : (needed : Bool) → Allows P Anything (check_base_url p f b cfg needed)
    check_base_url-Allows false = Allows-pure tt tt
    check_base_url-Allows true = Allows-then _ _ preview_base_url-Allows (λ u. Allows-pure tt tt)

    pub prepare_create-Allows :
        (req : CreateRequest)
        → Allows P (λ r. IsPrepared req r.0 r.1) (prepare_create p f b cfg req)
    unfolding prepare_create
    prepare_create-Allows req =
        Allows-Answered _ _ _
          (λ base known. Allows-then _ _ (check_revision-Allows req base) (λ _.
            Allows-bind _
              (λ _ _. Allows-then _ _ (check_isolation-Allows base req.message_isolation) (λ _.
                Allows-bind (AllSelected p f b cfg base req _ _)
                  (λ prepared s.
                    Allows-bind (λ _. validate_execution_graph p prepared.profiles ≡ none)
                      (λ _ graph. Allows-checked _ _ (λ _ missing.
                        Allows-then _ _ (check_base_url-Allows prepared.has_endpoint) (λ _.
                          Allows-pure _ (record {
                            read = known;
                            selected = s.1;
                            pinned = All-of _ (λ name. s.0.pinned name (inl refl)) _;
                            closed = missing_dependency-IsClosed _ _ missing;
                            acyclic = validate_execution_graph-IsAcyclic p _ graph;
                          }))))
                      (check_graph-Allows _))
                  (prepare_each-Allows p f b cfg base req reads _ _)))
              (of_checked-Allows _)))
          (reads (read_baseline req.project req.baseline) refl)
