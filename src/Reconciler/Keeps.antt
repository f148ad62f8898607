-- ===== src/Reconciler/Keeps.antt =====
-- Rules for what an action does to the worker: `Keeps R m` says that `m` relates the worker before
-- to that after by `R`, whether it returns a value or an error. One rule for each way in which the
-- reconciler's actions are built.
use envy.Common.{
  ◌≡◌, ◌∙◌, subst, sym, ◌≢◌, ◌⊎◌, inl, Map, refl, Bool, true, false, Option, [], ◌∷◌, String,
  if◌then◌else◌,
}
use envy.Model.{Composition, Err, Phase, Endpoint}
use envy.Reconciler.Intent.{Intent, held, NoneReady}
use envy.Reconciler.Effects.{
  M, Oracle, Worker, Res, ok, failed, Request, History, ask, ask_both, catch, pure, fail, gets,
  modify, lift, wrap, clock, persist, continue, ◌>>=◌, read_clock, save, read_active, check_guard,
  apply_routes, expire,
}

-- A relation that holds of a worker and itself, and goes on from step to step.
pub record IsTrail (R : Worker → Worker → Type 0) : Type 0 where
  pub stay : (w : Worker) → R w w
  pub follow : (u v w : Worker) → R u v → R v w → R u w

pub record Keeps {A : Type 0} (R : Worker → Worker → Type 0) (m : M A) : Type 0 where
  pub at : (w : Worker) → R w (m w).1

module _ {R : Worker → Worker → Type 0} (t : IsTrail R) where
  pub Keeps-pure : {A : Type 0} (a : A) → Keeps R (pure a)
  unfolding pure
  Keeps-pure a = record { at = λ w. t.stay w }

  pub Keeps-fail : {A : Type 0} (e : Err) → Keeps R (fail {A = A} e)
  unfolding fail
  Keeps-fail e = record { at = λ w. t.stay w }

  pub Keeps-gets : {A : Type 0} (f : Composition → A) → Keeps R (gets f)
  unfolding gets
  Keeps-gets f = record { at = λ w. t.stay w }

  pub Keeps-lift : {A : Type 0} (r : Res A) → Keeps R (lift r)
  unfolding lift
  Keeps-lift r = record { at = λ w. t.stay w }

  Keeps-continue :
      {A B : Type 0} (f : A → M B)
      → ((a : A) → Keeps R (f a))
      → (r : Res A) (u v : Worker) → R u v
      → R u (continue r f v).1
  Keeps-continue f kf (ok a) u v h = t.follow u v _ h ((kf a).at v)
  Keeps-continue f kf (failed e) u v h = h

  pub Keeps-bind :
      {A B : Type 0} (m : M A) (f : A → M B)
      → Keeps R m
      → ((a : A) → Keeps R (f a))
      → Keeps R (m >>= f)
  unfolding ◌>>=◌
  Keeps-bind m f km kf = record { at = λ w. Keeps-continue f kf (m w).0 w (m w).1 (km.at w) }

module _ {R : Worker → Worker → Type 0} where
  pub Keeps-catch : {A : Type 0} (m : M A) → Keeps R m → Keeps R (catch m)
  unfolding catch
  Keeps-catch m k = record { at = λ w. k.at w }

  pub Keeps-wrap : {A : Type 0} (s : String) (m : M A) → Keeps R m → Keeps R (wrap s m)
  unfolding wrap
  Keeps-wrap s m k = record { at = λ w. k.at w }

  pub Keeps-if :
      {A : Type 0} (b : Bool) (m n : M A) → Keeps R m → Keeps R n → Keeps R (if b then m else n)
  Keeps-if true m n km kn = km
  Keeps-if false m n km kn = kn

abbrev pub FollowsGuard : History → Type 0
FollowsGuard [] = ⊥
FollowsGuard (c ∷ h) = c ≡ record { request = check_guard; succeeded = true }

-- What must stand before a call in the history. Routes are written, and expirations recorded, only
-- under a leadership that was checked just before; routes also from a fresh read of the store. A
-- composition is saved with a ready endpoint only if it is ready at its desired generation.
abbrev pub FollowsRead : History → Type 0
FollowsRead [] = ⊥
FollowsRead (c ∷ h) = (c ≡ record { request = read_active; succeeded = true }) × FollowsGuard h

abbrev pub FollowsGuardAndClock : History → Type 0
FollowsGuardAndClock [] = ⊥
FollowsGuardAndClock (c ∷ h) = (c.request ≡ read_clock) × FollowsGuard h

-- Ready, and observed at the generation that is desired.
pub record IsCurrent (c : Composition) : Type 0 where
  pub phase : c.phase ≡ Phase.ready
  pub generation : c.observed_generation ≡ c.generation
  pub level : c.verification_level ≢ "none"

abbrev pub IsLawful : Request → History → Type 0
IsLawful (apply_routes s) h = FollowsRead h
IsLawful (expire t) h = FollowsGuardAndClock h
IsLawful (save c) h = NoneReady c.endpoints ⊎ IsCurrent c
IsLawful _ h = Unit

-- Every call of a history is lawful after those before it.
abbrev pub AllLawful : History → Type 0
AllLawful [] = Unit
AllLawful (c ∷ h) = IsLawful c.request h × AllLawful h

-- Desired state and endpoints are left as they are, and while no endpoint is ready, only lawful
-- calls are made. Both are seen through `f`, which the rules need not look into.
pub record Calm (f : Composition → Intent × Map Endpoint) (w w' : Worker) : Type 0 where
  pub same : f w'.comp ≡ f w.comp
  pub lawful : NoneReady (f w.comp).1 → AllLawful w.history → AllLawful w'.history

pub Calm-IsTrail : (f : Composition → Intent × Map Endpoint) → IsTrail (Calm f)
Calm-IsTrail f = record {
  stay = λ w. record { same = refl; lawful = λ n h. h };
  follow = λ u v w p q. record {
    same = q.same ∙ p.same;
    lawful = λ n h. q.lawful (subst (λ x. NoneReady x.1) (sym p.same) n) (p.lawful n h);
  };
}

module _ {f : Composition → Intent × Map Endpoint} where
  pub Calm-modify :
      (g : Composition → Composition)
      → ((c : Composition) → f (g c) ≡ f c)
      → Keeps (Calm f) (modify g)
  unfolding modify
  Calm-modify g h = record { at = λ w. record { same = h w.comp; lawful = λ n l. l } }

  pub Calm-ask :
      {B : Type 0} (q : Request) (a : History → Res B)
      → ((h : History) → IsLawful q h)
      → Keeps (Calm f) (ask q a)
  unfolding ask
  Calm-ask q a l = record { at = λ w. record { same = refl; lawful = λ n h. (l w.history, h) } }

  pub Calm-ask_both :
      {B : Type 0} (q : Request) (a : History → B × Option Err)
      → ((h : History) → IsLawful q h)
      → Keeps (Calm f) (ask_both q a)
  unfolding ask_both
  Calm-ask_both q a l = record {
    at = λ w. record { same = refl; lawful = λ n h. (l w.history, h) };
  }

  pub Calm-clock : (o : Oracle) → Keeps (Calm f) (clock o)
  unfolding clock
  Calm-clock o = record { at = λ w. record { same = refl; lawful = λ n h. (tt, h) } }

pub held-persist : (o : Oracle) → Keeps (Calm held) (persist o)
unfolding persist held
held-persist o = record { at = λ w. record { same = refl; lawful = λ n h. (inl n, h) } }

pub ruleset calm_rules = (Keeps-catch, Keeps-wrap, Keeps-if, Calm-clock, held-persist)

-- A part of the composition is left as it is.
pub record Fixes {A : Type 0} (f : Composition → A) (w w' : Worker) : Type 0 where
  pub same : f w'.comp ≡ f w.comp

pub Fixes-IsTrail : {A : Type 0} (f : Composition → A) → IsTrail (Fixes f)
Fixes-IsTrail f = record {
  stay = λ w. record { same = refl };
  follow = λ u v w p q. record { same = q.same ∙ p.same };
}

module _ {A : Type 0} {f : Composition → A} where
  pub Fixes-bind :
      {B C : Type 0} (m : M B) (g : B → M C)
      → Keeps (Fixes f) m
      → ((b : B) → Keeps (Fixes f) (g b))
      → Keeps (Fixes f) (m >>= g)
  Fixes-bind = Keeps-bind (Fixes-IsTrail f)

  pub Fixes-pure : {B : Type 0} (b : B) → Keeps (Fixes f) (pure b)
  Fixes-pure = Keeps-pure (Fixes-IsTrail f)

  pub Fixes-fail : {B : Type 0} (e : Err) → Keeps (Fixes f) (fail {A = B} e)
  Fixes-fail = Keeps-fail (Fixes-IsTrail f)

  pub Fixes-gets : {B : Type 0} (g : Composition → B) → Keeps (Fixes f) (gets g)
  Fixes-gets = Keeps-gets (Fixes-IsTrail f)

  pub Fixes-lift : {B : Type 0} (r : Res B) → Keeps (Fixes f) (lift r)
  Fixes-lift = Keeps-lift (Fixes-IsTrail f)

  pub Fixes-modify :
      (g : Composition → Composition)
      → ((c : Composition) → f (g c) ≡ f c)
      → Keeps (Fixes f) (modify g)
  unfolding modify
  Fixes-modify g h = record { at = λ w. record { same = h w.comp } }

  pub Fixes-ask : {B : Type 0} (q : Request) (a : History → Res B) → Keeps (Fixes f) (ask q a)
  unfolding ask
  Fixes-ask q a = record { at = λ w. record { same = refl } }

  pub Fixes-clock : (o : Oracle) → Keeps (Fixes f) (clock o)
  unfolding clock
  Fixes-clock o = Fixes-ask _ _

  pub Fixes-persist : (o : Oracle) → Keeps (Fixes f) (persist o)
  unfolding persist ask
  Fixes-persist o = record { at = λ w. record { same = refl } }

pub ruleset fixes_rules = (
  Fixes-bind, Fixes-pure, Fixes-fail, Fixes-gets, Fixes-lift, Fixes-modify, Fixes-ask, Fixes-clock,
  Fixes-persist, Keeps-if, Keeps-wrap, Keeps-catch,
)
