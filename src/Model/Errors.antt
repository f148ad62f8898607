-- ===== src/Model/Errors.antt =====
-- Errors: internal/domain/model.go's `Error` and sentinel values, those of
-- internal/reconciler/reconciler.go, and how `errors.Is`, `fmt.Errorf` with `%w` and
-- `errors.Join` see through them.
use envy.Common.{String, Bool, true, false, ◌||◌, Option, none, some, ◌<>◌}

-- `domain.Error`: the value that is stored and returned to clients.
pub record Error : Type 0 where
  pub code : String
  pub message : String
  pub retryable : Bool
  pub project : String
  pub composition : String

unfoldable pub validation : String → Error
validation message = record {
  code = "validation_error";
  message = message;
  retryable = false;
  project = "";
  composition = "";
}

unfoldable pub not_found : String → Error
not_found message = record {
  code = "not_found";
  message = message;
  retryable = false;
  project = "";
  composition = "";
}

-- A Go `error`. `coded` is an error with a method `ReconciliationCode`; `wrapped` is
-- `fmt.Errorf` with a prefix and `%w`, `noted` with `%w` and a suffix, `joined` is `errors.Join`.
pub data Err : Type 0 where
  stale_observation : Err
  not_leader : Err
  baseline_pending : Err
  routes_pending : Err
  domain_error : Error → Err
  plain : String → Err
  coded : String → String → Err
  wrapped : String → Err → Err
  noted : Err → String → Err
  joined : Err → Err → Err

-- `err.Error()`
unfoldable pub error_text : Err → String
error_text stale_observation = "composition desired state changed"
error_text not_leader = "another reconciler holds the lease"
error_text baseline_pending =
    "baseline observation is unavailable or changed; waiting for a fresh check"
error_text routes_pending = "waiting for route controller acceptance"
error_text (domain_error e) = e.message
error_text (plain m) = m
error_text (coded c m) = m
error_text (wrapped m e) = m <> (": " <> error_text e)
error_text (noted e m) = error_text e <> (": " <> m)
error_text (joined a b) = error_text a <> ("\n" <> error_text b)

-- `errors.Is(err, domain.ErrStaleObservation)`
unfoldable pub is_stale : Err → Bool
is_stale stale_observation = true
is_stale (wrapped _ e) = is_stale e
is_stale (noted e _) = is_stale e
is_stale (joined a b) = is_stale a || is_stale b
is_stale _ = false

-- `errors.Is(err, errBaselineObservationPending)`
unfoldable pub is_baseline_pending : Err → Bool
is_baseline_pending baseline_pending = true
is_baseline_pending (wrapped _ e) = is_baseline_pending e
is_baseline_pending (noted e _) = is_baseline_pending e
is_baseline_pending (joined a b) = is_baseline_pending a || is_baseline_pending b
is_baseline_pending _ = false

-- `errors.Is(err, errRoutesPending)`
unfoldable pub is_routes_pending : Err → Bool
is_routes_pending routes_pending = true
is_routes_pending (wrapped _ e) = is_routes_pending e
is_routes_pending (noted e _) = is_routes_pending e
is_routes_pending (joined a b) = is_routes_pending a || is_routes_pending b
is_routes_pending _ = false

abbrev or_else : Option String → Option String → Option String
or_else (some c) _ = some c
or_else none o = o

-- `errors.AsType` at the interface with `ReconciliationCode`, and the code: the first in the tree.
unfoldable pub reconciliation_code : Err → Option String
reconciliation_code (coded c _) = some c
reconciliation_code (wrapped _ e) = reconciliation_code e
reconciliation_code (noted e _) = reconciliation_code e
reconciliation_code (joined a b) = or_else (reconciliation_code a) (reconciliation_code b)
reconciliation_code _ = none
