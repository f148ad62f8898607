-- ===== src/Lib.antt =====
-- Envy keeps short-lived compositions of a project: a few components replaced by images under test,
-- with the rest of the baseline shared, and requests routed to the replacements. Users write the
-- desired state through the API; a reconciler that holds a lease brings Kubernetes, the service
-- mesh, Pub/Sub and the ingress to it and records what it observed.
--
-- Parts and files, paths from the repository's root:
--
--   Model.antt and Model/       internal/domain/model.go, catalog.go, workload.go, messaging.go,
--                               preview.go, builds.go, evidence.go, baseline_observation.go: the
--                               records and enumerations, field by field. `Err` holds the errors
--                               that the code tells apart by errors.Is and errors.As.
--   Domain.antt and Domain/     the functions of catalog.go (Catalog), workload.go (Workload and
--                               Workload/Graph) and messaging.go (Messaging and its Filter and
--                               Resolve), evidence_freshness.go and verification_identity.go
--                               (Evidence), frontend.go (Frontend), recipe.go (Recipe); proofs in
--                               Catalog/Labels, Workload/Graph/ (Fuel, Order, Acyclic), Messaging/
--                               (Conjunction, Environment, Validity), Evidence/Current,
--                               Frontend/Available, Recipe/Accepted.
--   Reconciler.antt             internal/reconciler/reconciler.go.
--     Effects                   what it asks of the store, the clock and the providers, as requests;
--                               the answers are an `Oracle`, any function of the calls made before.
--                               An action passes on the composition, the calls and `routeCycle`.
--     Snapshot, Routes          Snapshot, syncRoutes
--     Step and Step/            step, observeBaseline, retireEndpointFree, planForOverrides
--     Destroy                   destroy
--     Failure, Cycle            setReady, failure, pendingRoutes; Tick, reconcile,
--                               publishObservation
--     Intent, Keeps             what users decide of a composition; rules for what an action keeps,
--                               and what makes a call lawful
--     Held and Held/, Ready and Ready/, Safety, Destroy/, Snapshot/, Failure/, Step/Retire/,
--     Step/Workloads/           proofs, by the part of the code they are about
--     Queue                     internal/reconciler/queue.go: the session of events and the turn of a
--                               worker; proofs in Queue/ (Index, Wakes, Processed)
--   Application.antt            internal/application: the service behind the API.
--     Backend                   what it asks of the store and the providers, as queries; the answers
--                               are a `Backend`, any function of the queries made before
--     Requests, Reads           service.go: NormalizeCreate, ValidateOverrides, ValidatePage; Get,
--                               List, Destroy
--     Builds, Previews          builds.go; preview.go, and the planning blockers of
--                               onboarding_plan.go
--     Components                catalog.go: ValidateComponent, RegisterComponent
--     Baselines, Bindings       catalog.go: validateBaseline, RegisterBaseline
--     Projects                  catalog.go: RegisterProject, BaselineChecks
--     Prepare, Create, Update   service.go: prepareCreate, Create, Update
--     Plan                      onboarding_plan.go: PlanCreate
--     Allows                    rules for what an action asks and returns
--     Lookups, Resolutions and  proofs, by the part of the code they are about
--     the children
--   Scenarios and Scenarios/    the theorems applied to concrete compositions
--
-- Conventions. A Go pointer to a composition is the state of the monad `M`; an error is a value,
-- and what was assigned before it stays assigned. Maps are association lists and a range over one
-- goes in the order of its list, so that a theorem about every list is about every order. Nil and
-- empty maps differ only where the code tells them apart. Times and durations are nanoseconds as
-- natural numbers, the zero time is 0. Hashing, JSON, URLs and durations are fields of
-- `Platform` and `Formats`.
--
-- Bounds. The search for cycles runs on fuel, one more than the number of components, which is as
-- deep as a path without a repetition can go. All other recursion is structural.
--
-- Not modelled: logging; the time limit on a step, which a provider's answer can stand for; the
-- mutexes of syncRoutes and of the queue's index; the goroutines and timers of Run and runQueue; in
-- the service, the listings that only pass a page on, GitHub previews,
-- diagnostics and onboarding; the HTTP API, SQL, and the clients of Kubernetes, meshes, GitHub and
-- Pub/Sub.
pub mod Common
pub mod Model
pub mod Domain
pub mod Reconciler
pub mod Application
pub mod Scenarios
