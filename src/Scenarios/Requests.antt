-- ===== src/Scenarios/Requests.antt =====
-- internal/application: a store and providers that answer, and the theorems about creation and
-- updates applied to them.
use envy.Common.{pos, true, false, none, some, [], ◌∷◌, All}
use envy.Model.{BuildReport, CreateRequest, UpdateRequest, plain}
use envy.Application.Backend.{Backend, Config, Formats, returned, failed}
use envy.Application.Create
use envy.Application.Plan
use envy.Application.Builds
use envy.Application.Builds.Recorded.{Records, record_report-IsBuild}
use envy.Application.Create.Fresh.{Creates, create-IsFresh}
use envy.Application.Create.Accepted.{Asks, create-Asks}
use envy.Application.Update
use envy.Application.Update.Planned.{Updates, update-Extends}
use envy.Scenarios.Fixtures.{platform, web, baseline, published, override}

abbrev pub formats : Formats
formats = record {
  parse_url = λ raw. some (record {
    scheme = "http";
    hostname = raw;
    host = raw;
    port = "";
    has_user = false;
    path = "";
    raw_query = "";
    fragment = "";
  });
  url_text = λ u. u.host;
  duration_text = λ n. "8h0m0s";
  encode_request = λ r. r.name;
  encode_build = λ project id component run attempt. run;
  decimal = λ n. "1";
  lower = λ s. s;
}

abbrev pub backend : Backend
backend = record {
  baseline = λ h project id. returned baseline;
  component = λ h project id. returned web;
  composition = λ h id. returned published;
  list = λ h project after limit. returned (published ∷ [], "");
  can_replay = true;
  replay = λ h key digest. returned none;
  create = λ h c key digest max. returned c;
  update = λ h id req op. returned published;
  destroy = λ h id. returned published;
  has_previews = false;
  profile = λ h project baseline component. returned none;
  approve = λ h profile expected. returned profile;
  has_discoverer = false;
  discover = λ h base c selection. failed (plain "unavailable");
  has_messaging = false;
  validate = λ h base. returned tt;
  has_builds = true;
  build = λ h project id. failed (plain "unavailable");
  record_build = λ h build. returned build;
  repository = λ h project id. returned (record {
    project = project;
    id = id;
    github_repository = "shop/web";
    installation_id = pos 1;
    enabled = true;
    images = ("web", "registry.test/shop/web") ∷ [];
  });
  enable = λ h project id enabled. failed (plain "unavailable");
  has_source_control = true;
  check_repository = λ h r. returned tt;
  resolve = λ h r ref. returned ref;
  has_registry = true;
  check_image = λ h image. returned tt;
  has_catalog = true;
  register_component = λ h c. returned c;
  register_project = λ h q. returned q;
  register_baseline = λ h c. returned c;
  has_validator = true;
  validate_catalog = λ h c profiles. returned tt;
  random_id = λ h. returned "4f1d";
  now = λ h. 1000;
}

abbrev pub settings : Config
settings = record {
  installation = "demo";
  approved_image_pull_secrets = [];
  default_ttl = pos 0;
  max_ttl = pos 0;
  max_compositions = 20;
  preview_base_url = "envy.localhost";
}

abbrev request : CreateRequest
request = record {
  message_isolation = false;
  expected_preview_revisions = [];
  expected_baseline_revision = "";
  project = "shop";
  baseline = "staging";
  name = "checkout";
  overrides = some (("web", override) ∷ []);
  resources = [];
  ttl = "1m";
}

abbrev change : UpdateRequest
change = record {
  expected_preview_revisions = [];
  expected_generation = pos 2;
  overrides = some (("web", override) ∷ []);
  idempotency_key = "";
  plan = none;
}

create-IsFresh_example :
    All
      (Creates platform formats backend settings)
      (Create.create platform formats backend settings request "key-1" []).1
create-IsFresh_example = create-IsFresh platform formats backend settings request "key-1"

create-Asks_example : Asks platform formats backend settings request "key-1" []
create-Asks_example = create-Asks platform formats backend settings request "key-1" []

update-Extends_example :
    All
      (Updates formats backend settings "c1" change)
      (Update.update formats backend settings "c1" change []).1
update-Extends_example = update-Extends formats backend settings "c1" change

abbrev report : BuildReport
report = record {
  component = "web";
  revision = "0123456789abcdef0123456789abcdef01234567";
  image =
      "registry.test/shop/web@sha256:000102030405060708090a0b0c0d0e0f000102030405060708090a0b0c0d0e0f";
  run_id = "17";
  attempt = pos 1;
  built_at = 900;
}

record_report-IsBuild_example :
    All
      (Records platform formats backend "shop" "web-repo")
      (Builds.record_report platform formats backend "shop" "web-repo" report []).1
record_report-IsBuild_example =
    record_report-IsBuild platform formats backend "shop" "web-repo" report
