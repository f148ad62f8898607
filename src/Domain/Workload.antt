-- ===== src/Domain/Workload.antt =====
-- internal/domain/workload.go: kinds of workload, execution identities and the bounds on declared
-- executions.
pub mod Graph
use Prim.Native.String.{slice}
use envy.Common.{
  ℕ, ◌+◌, String, Bool, true, false, not, ◌&&◌, ◌||◌, Option, none, some, List, [], ◌∷◌, any, leb,
  ltb, ◌==◌, if◌then◌else◌, str_eq, codes, len, lez, is_zero, pos,
}
use envy.Model.{
  Component, WorkloadKind, WorkloadExecution, Platform, Error, validation, unset, http, worker, job,
  scheduled_job, other,
}
use envy.Domain.Catalog.{valid_catalog_id}

abbrev kind_or_http : WorkloadKind → WorkloadKind
kind_or_http unset = http
kind_or_http k = k

unfoldable pub workload_kind : Component → WorkloadKind
workload_kind c = elim c.execution [ none ↦ http | some e ↦ kind_or_http e.kind ]

abbrev pub is_http : WorkloadKind → Bool
is_http http = true
is_http _ = false

-- A Job or a scheduled Job, of which an execution identity is kept.
abbrev pub is_finite : WorkloadKind → Bool
is_finite job = true
is_finite scheduled_job = true
is_finite _ = false

abbrev pub is_scheduled : WorkloadKind → Bool
is_scheduled scheduled_job = true
is_scheduled _ = false

unfoldable pub has_endpoint : Component → Bool
unfolding workload_kind
has_endpoint c = is_http (workload_kind c)

-- The code points of `unicode.IsSpace`.
abbrev pub is_space : ℕ → Bool
is_space c =
    leb 9 c && leb c 13
    || c == 32
    || c == 0x85
    || c == 0xA0
    || c == 0x1680
    || leb 0x2000 c && leb c 0x200A
    || c == 0x2028
    || c == 0x2029
    || c == 0x202F
    || c == 0x205F
    || c == 0x3000

-- `len(strings.Fields(s))`: the runs of other characters; the flag says whether one is open.
abbrev count_fields : Bool → List ℕ → ℕ
count_fields inside [] = 0
count_fields inside (c ∷ cs) =
    (if is_space c || inside then 0 else 1) + count_fields (not (is_space c)) cs

abbrev pub second : ℕ
second = 1_000_000_000

abbrev pub day : ℕ
day = 86_400_000_000_000

-- A check that fails with a validation message, or the checks after it.
abbrev pub reject_if : Bool → String → Option Error → Option Error
reject_if bad message next = if bad then some (validation message) else next

abbrev pub first_error : Option Error → Option Error → Option Error
first_error (some e) _ = some e
first_error none next = next

-- Whether the settings of a schedule are all left out.
abbrev unscheduled : WorkloadExecution → Bool
unscheduled e = str_eq e.schedule "" && is_zero e.max_runs && str_eq e.concurrency_policy ""

abbrev untimed : WorkloadExecution → Bool
untimed e = str_eq e.timeout "" && is_zero e.retry_limit

module _ (p : Platform) where
  -- `ExecutionID`: the short identity and the whole hash.
  unfoldable pub execution_id : Component → String → String × String
  execution_id component image =
      let encoded = p.digest 32 (p.encode_execution component image) in
      (slice encoded 0 20, encoded)

  -- A timeout from one second to a day.
  abbrev pub timeout_ok : String → Bool
  timeout_ok text = elim (p.parse_duration text) [
    | none ↦ false
    | some d ↦ leb second d && leb d day
  ]

  unfoldable pub validate_finite_execution : WorkloadExecution → Option Error
  validate_finite_execution e =
      reject_if (not (timeout_ok e.timeout))
        "finite workloads require a timeout from 1s through 24h"
        (reject_if (not (lez (pos 0) e.retry_limit && lez e.retry_limit (pos 10)))
          "finite workloads require retry_limit from 0 through 10" none)

  -- The `switch` on the kind.
  unfoldable pub validate_kind : WorkloadKind → WorkloadExecution → Option Error
  unfolding validate_finite_execution
  validate_kind http e =
      reject_if (not (untimed e && unscheduled e))
        "HTTP workloads cannot declare execution scheduling settings" none
  validate_kind worker e =
      reject_if (not (untimed e && unscheduled e))
        "workers cannot declare finite-job or schedule settings" none
  validate_kind job e =
      reject_if (not (unscheduled e)) "jobs cannot declare a schedule" (validate_finite_execution e)
  validate_kind scheduled_job e = first_error (validate_finite_execution e) (
      reject_if (not (count_fields false (codes e.schedule) == 5 && leb (len e.schedule) 128))
        "scheduled jobs require a bounded five-field cron schedule"
        (reject_if
          (not (
            lez (pos 1) e.max_runs
            && lez e.max_runs (pos 1000)
            && str_eq e.concurrency_policy "forbid"))
          "scheduled jobs require max_runs of 1–1000 and forbid concurrency" none))
  validate_kind _ e = some (validation "execution kind must be http, worker, job, or scheduled-job")

  -- The loop over the declared dependencies; `seen` holds those before.
  unfoldable pub validate_dependencies : String → List String → List String → Option Error
  validate_dependencies self seen [] = none
  validate_dependencies self seen (d ∷ ds) =
      reject_if (not (valid_catalog_id d) || str_eq d self || any (str_eq d) seen)
        "execution dependencies must be distinct component IDs other than self"
        (validate_dependencies self (d ∷ seen) ds)

  unfoldable pub validate_execution : Component → Option Error
  unfolding validate_kind validate_dependencies workload_kind
  validate_execution c = elim c.execution [
    | none ↦ none
    | some e ↦
        first_error (validate_kind (workload_kind c) e)
          (validate_dependencies c.id [] e.dependencies)
  ]
