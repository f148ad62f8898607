-- ===== src/Domain/Frontend/Available.antt =====
-- internal/domain/frontend.go: when a frontend is shown as ready, and its check as current.
use envy.Common.{
  ◌<◌, ◌≡◌, ◌≢◌, ◌↔◌, refl, String, Bool, true, false, Option, none, some, holds, ◌==◌,
  if◌then◌else◌, str_eq, eq_iff, arith, Bool-cases, inl, inr, &&-split,
}
use envy.Model.{Composition, Phase, Phase-discrete, Time}
use envy.Domain.Frontend.{
  FrontendBinding, FrontendCheck, public_endpoint, frontend_composition_available, check_state,
  view_frontend,
}

-- A composition that is wanted, has not expired, and is ready at its desired generation with a public
-- endpoint.
pub record IsAvailable (c : Composition) (now : Time) : Type 0 where
  pub wanted : c.deletion_requested ≡ false
  pub phase : c.phase ≡ Phase.ready
  pub unexpired : now < c.expires_at
  pub observed : c.generation ≡ c.observed_generation
  pub ready : (public_endpoint c).ready ≡ true
  pub reachable : (public_endpoint c).url ≢ ""

-- A check that was reported against the generation that is available.
pub record IsCurrentCheck (b : FrontendBinding) (c : Composition) (now : Time) : Type 0 where
  pub available : IsAvailable c now
  pub check : FrontendCheck
  pub reported : b.check ≡ some check
  pub generation : check.composition_generation ≡ c.generation

phase_of :
    (c : Composition) (phase : Phase)
    → holds (Phase-discrete c.phase phase) ≡ true
    → c.phase ≡ phase
phase_of c phase h = at (Phase-discrete c.phase phase) h
  where
    at : (d : Dec (c.phase ≡ phase)) → holds d ≡ true → c.phase ≡ phase
    at (yes e) h' = e
    at (no n) h' = cc

view-IsAvailable :
    (b : FrontendBinding) (c : Composition) (now : Time)
    → (view_frontend b c now).ready ≡ true
    → IsAvailable c now
unfolding view_frontend frontend_composition_available
view-IsAvailable b c now h = record {
  wanted = ground arith;
  phase = phase_of c Phase.ready (ground arith);
  unexpired = ground arith;
  observed = ground arith;
  ready = ground arith;
  reachable = λ e. ground (arith, (eq_iff (public_endpoint c).url "").1 e);
}

-- What the tests of the phase say of a ready composition.
ready_phase :
    (c : Composition)
    → c.phase ≡ Phase.ready
    → (holds (Phase-discrete c.phase Phase.ready) ≡ true)
      × ((holds (Phase-discrete c.phase Phase.destroying) ≡ false)
          × (holds (Phase-discrete c.phase Phase.destroyed) ≡ false))
unfolding Phase-discrete
ready_phase c e = rw e (refl, (refl, refl))

reachable_url : (url : String) → url ≢ "" → str_eq url "" ≡ false
reachable_url url n = elim (Bool-cases (str_eq url "")) [
  | inl empty ↦ elim (n ((eq_iff url "").0 empty)) [ ]
  | inr other ↦ other
]

IsAvailable-view :
    (b : FrontendBinding) (c : Composition) (now : Time)
    → IsAvailable c now
    → (view_frontend b c now).ready ≡ true
unfolding view_frontend frontend_composition_available
IsAvailable-view b c now k =
    let (ready, (not_destroying, not_destroyed)) = ready_phase c k.phase in
    let url = reachable_url (public_endpoint c).url k.reachable in
    ground
      (arith, ready, not_destroying, not_destroyed, url, k.wanted, k.unexpired, k.observed, k.ready)

abbrev state_text : Bool → String
state_text b = if b then "current" else "stale"

current_text : (b : Bool) → state_text b ≡ "current" → b ≡ true
current_text true h = refl
current_text false h = cc

view-IsCurrentCheck :
    (b : FrontendBinding) (c : Composition) (now : Time)
    → (view_frontend b c now).check_state ≡ "current"
    → IsCurrentCheck b c now
unfolding view_frontend check_state
view-IsCurrentCheck b c now h = at b.check refl h
  where
    at :
        (o : Option FrontendCheck)
        → b.check ≡ o
        → check_state (view_frontend b c now).ready c.generation o ≡ "current"
        → IsCurrentCheck b c now
    at none e h' = cc
    at (some check) e h' =
        let (shown, same) =
          &&-split (view_frontend b c now).ready (check.composition_generation == c.generation)
            (current_text _ h') in
        record {
          available = view-IsAvailable b c now shown;
          check = check;
          reported = e;
          generation = ground arith;
        }

IsCurrentCheck-view :
    (b : FrontendBinding) (c : Composition) (now : Time)
    → IsCurrentCheck b c now
    → (view_frontend b c now).check_state ≡ "current"
unfolding view_frontend check_state
IsCurrentCheck-view b c now k =
    ground (arith, k.reported, IsAvailable-view b c now k.available, k.generation)

-- A frontend is shown as ready just when its composition is available, and its check as current just
-- when it was moreover reported against the generation of the composition.
pub view_frontend-IsAvailable :
    (b : FrontendBinding) (c : Composition) (now : Time)
    → (((view_frontend b c now).ready ≡ true) ↔ IsAvailable c now)
      × (((view_frontend b c now).check_state ≡ "current") ↔ IsCurrentCheck b c now)
view_frontend-IsAvailable b c now = (
  (view-IsAvailable b c now, IsAvailable-view b c now),
  (view-IsCurrentCheck b c now, IsCurrentCheck-view b c now),
)
