-- ===== src/Reconciler/Step/Retire.antt =====
-- internal/reconciler/reconciler.go: the workloads of components that are no longer overridden,
-- and `retireEndpointFree`.
pub mod Handover
use envy.Common.{
  ◌+◌, String, Bool, true, false, Option, none, some, [], ◌∷◌, ◌++◌, Map, delete, insert, has_key,
  if◌then◌else◌, str_eq, ◌<>◌, ltb, maps_equal, is_empty,
}
use envy.Model.{Composition, ComponentOverride, ComponentOverride-discrete, WorkloadRef, Time}
use envy.Domain.Catalog.{workload_for}
use envy.Reconciler.Effects.{
  M, Oracle, Config, ask, pure, gets, modify, wrap, clock, persist, ◌>>=◌, ◌>>◌, delete_workload,
  confirm_workload_absent,
}
use envy.Reconciler.Failure.{waiting_condition}

-- `overridesEqual`. A nil map equals none that was made.
unfoldable pub overrides_equal : Option (Map ComponentOverride) → Map ComponentOverride → Bool
overrides_equal none desired = false
overrides_equal (some published) desired = maps_equal ComponentOverride-discrete published desired

-- A published component that is no longer desired: its workload retires, if there is one.
unfoldable pub retire_component : String → Composition → Composition
retire_component component c =
    let ref = workload_for c.runtime component in
    if has_key component c.overrides then c else if str_eq ref.namespace "" then c else record c {
      runtime = record (c.runtime) {
        retiring_workloads = insert component ref c.runtime.retiring_workloads;
        workloads = delete component c.runtime.workloads;
      };
    }

abbrev pub retire_components : Map ComponentOverride → Composition → Composition
retire_components [] c = c
retire_components ((component, _) ∷ rest) c = retire_components rest (retire_component component c)

abbrev pub retire_published : Option (Map ComponentOverride) → Composition → Composition
retire_published none c = c
retire_published (some published) c = retire_components published c

abbrev pub set_published : Composition → Composition
set_published c = record c {
  runtime = record (c.runtime) { published_overrides = some c.overrides };
}

-- The selection becomes the published one, and what it leaves out retires.
unfoldable pub adopt_selection : Composition → Composition
unfolding retire_component
adopt_selection c = set_published (retire_published c.runtime.published_overrides c)

abbrev pub is_current : Composition → Bool
is_current c = overrides_equal c.runtime.published_overrides c.overrides

abbrev pub drop_retiring : String → Composition → Composition
drop_retiring component c = record c {
  runtime = record (c.runtime) {
    retiring_workloads = delete component c.runtime.retiring_workloads;
  };
}

abbrev pub add_retiring_condition : String → Composition → Composition
add_retiring_condition message c = record c {
  conditions = c.conditions ++ waiting_condition "RetiringWorkloads" message ∷ [];
}

module _ (o : Oracle) where
  -- `true` where the loop goes on, `false` where it waits for a deletion.
  unfoldable pub settle_retired : String → Bool → M Bool
  settle_retired component true = modify (drop_retiring component) >> pure true
  settle_retired component false =
      modify (add_retiring_condition "waiting for retired workload deletion") >> pure false

  unfoldable pub remove_retired : String → WorkloadRef → M Bool
  remove_retired component ref = do
    wrap ("retire " <> component) (ask (delete_workload ref) (λ h. o.delete_workload h ref))
    absent ←
        wrap ("confirm retirement for " <> component)
          (ask (confirm_workload_absent ref) (λ h. o.workload_absent h ref))
    settle_retired component absent

  -- The loop over the retiring workloads: whether all are gone.
  unfoldable pub remove_all : Map WorkloadRef → M Bool
  remove_all [] = pure true
  remove_all ((component, ref) ∷ rest) = do
    gone ← remove_retired component ref
    let later = remove_all rest
    (if gone then later else pure false)

  -- The routes of a changed selection are not needed, but what it leaves out retires.
  unfoldable pub adopt_endpoint_free : Bool → M (Unit {0})
  adopt_endpoint_free true = pure tt
  adopt_endpoint_free false = modify adopt_selection >> persist o

  -- Whether all retired workloads are gone: the negation of what `retireEndpointFree` returns.
  unfoldable pub retire_endpoint_free : M Bool
  retire_endpoint_free = do
    current ← gets is_current
    adopt_endpoint_free current
    retiring ← gets (λ c. c.runtime.retiring_workloads)
    remove_all retiring

module _ (o : Oracle) (cfg : Config) where
  abbrev set_drain : Option Time → Composition → Composition
  set_drain until c = record c { runtime = record (c.runtime) { retirement_drain_until = until } }

  unfoldable pub finish_retirement : Bool → M Bool
  finish_retirement true = modify (set_drain none) >> pure true
  finish_retirement false = pure false

  unfoldable pub remove_drained : M Bool
  remove_drained = do
    retiring ← gets (λ c. c.runtime.retiring_workloads)
    gone ← remove_all o retiring
    finish_retirement gone

  -- Requests to a retired workload are given time before it is deleted.
  unfoldable pub drain_retired : Option Time → M Bool
  drain_retired none = do
    now ← clock o
    modify (set_drain (some (now + cfg.drain_timeout)))
    modify (add_retiring_condition "waiting for retired override drain")
    pure false
  drain_retired (some until) = do
    now ← clock o
    (if ltb now until
        then modify (add_retiring_condition "draining retired override requests") >> pure false
        else remove_drained)

  -- Whether nothing retires any more.
  unfoldable pub retire_routed : M Bool
  retire_routed = do
    retiring ← gets (λ c. c.runtime.retiring_workloads)
    until ← gets (λ c. c.runtime.retirement_drain_until)
    (if is_empty retiring then pure true else drain_retired until)
