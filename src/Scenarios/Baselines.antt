-- ===== src/Scenarios/Baselines.antt =====
-- internal/application/catalog.go: a baseline that is registered, and the theorem about
-- registrations applied to it.
use envy.Common.{[], ◌∷◌, All}
use envy.Model.{Baseline}
use envy.Application.Baselines.{register_baseline}
use envy.Application.Baselines.Registered.{RegistersBaseline, register_baseline-IsBaseline}
use envy.Scenarios.Fixtures.{platform, baseline}
use envy.Scenarios.Requests.{formats, backend, settings}

abbrev staging : Baseline
staging = record baseline {
  pubsub = [];
  revision = "r1";
  endpoint = "shop.envy.localhost";
  verification = record { kind = "envy-chain"; chain = "web" ∷ []; path = ""; expected_status = 0 };
}

register_baseline-IsBaseline_example :
    All
      (RegistersBaseline platform formats backend settings)
      (register_baseline platform formats backend settings staging []).1
register_baseline-IsBaseline_example =
    register_baseline-IsBaseline platform formats backend settings staging
