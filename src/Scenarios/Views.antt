-- ===== src/Scenarios/Views.antt =====
-- internal/domain: what is shown of a composition, and a component that is registered.
use envy.Common.{◌≡◌, ◌↔◌, none, some, true, false, [], All}
use envy.Model.{VerificationEvidence, Component}
use envy.Application.Backend.{Formats}
use envy.Domain.Evidence.{evidence_freshness_at, current}
use envy.Domain.Evidence.Current.{IsCurrent, evidence_freshness_at-IsCurrent}
use envy.Domain.Frontend.{FrontendBinding, view_frontend}
use envy.Domain.Frontend.Available.{IsAvailable, IsCurrentCheck, view_frontend-IsAvailable}
use envy.Application.Components.{register}
use envy.Application.Components.Registered.{Registers, register-IsComponent}
use envy.Scenarios.Fixtures.{platform, published, web}
use envy.Scenarios.Requests.{formats, backend, settings}

abbrev evidence : VerificationEvidence
evidence = record {
  baseline_fingerprint = "f1";
  baseline_scope = "demo/shop/staging";
  contract_fingerprint = "envy-chain";
  workloads = [];
  freshness = "";
  id = "ev1";
  composition = "c1";
  generation = 2;
  kind = "envy-chain";
  outcome = "passed";
  first_checked_at = 1000;
  last_checked_at = 1000;
  probes = [];
  hops = [];
  error = none;
}

evidence_freshness_at-IsCurrent_example :
    (evidence_freshness_at platform published evidence 2000 ≡ current)
    ↔ IsCurrent platform published evidence 2000
evidence_freshness_at-IsCurrent_example =
    evidence_freshness_at-IsCurrent platform published evidence 2000

abbrev binding : FrontendBinding
binding = record {
  project = "shop";
  frontend = "storefront";
  revision = "4f1d";
  composition = "c1";
  repository = "shop/storefront";
  version = 1;
  url = "https://shop.test";
  check =
      some (record {
        composition_generation = 2;
        status = "passed";
        message = "";
        reported_at = 1000;
      });
  created_at = 1;
  updated_at = 1;
}

view_frontend-IsAvailable_example :
    (((view_frontend binding published 1000).ready ≡ true) ↔ IsAvailable published 1000)
    × (((view_frontend binding published 1000).check_state ≡ "current")
        ↔ IsCurrentCheck binding published 1000)
view_frontend-IsAvailable_example = view_frontend-IsAvailable binding published 1000

-- Formats that read an absolute path as a URL without a host.
abbrev paths : Formats
paths = record formats {
  parse_url = λ raw. some (record {
    scheme = "";
    hostname = "";
    host = "";
    port = "";
    has_user = false;
    path = raw;
    raw_query = "";
    fragment = "";
  });
}

-- A component that is registered.
abbrev checkout : Component
checkout = record web { profile = "http-small"; readiness_path = "/ready" }

register-IsComponent_example :
    All
      (Registers platform paths backend settings checkout)
      (register platform paths backend settings checkout []).1
register-IsComponent_example = register-IsComponent platform paths backend settings checkout
