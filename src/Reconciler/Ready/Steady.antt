-- ===== src/Reconciler/Ready/Steady.antt =====
-- Actions at the end of a cycle whose step succeeded: a ready composition stays ready.
use envy.Common.{◌≡◌, ◌∙◌, ◌≢◌, refl, Option, none}
use envy.Model.{Composition, Time, Phase, Err}
use envy.Reconciler.Intent.{intent}
use envy.Reconciler.Effects.{
  M, Oracle, Worker, Res, ◌>>=◌, gets, modify, pure, ask, clock, Request, History,
}
use envy.Reconciler.Keeps.{
  Keeps, IsTrail, AllLawful, IsLawful, Keeps-if, Keeps-bind, Keeps-pure, Keeps-gets,
}
use envy.Reconciler.Failure

-- Ready, with a level of verification.
pub record Bright (c : Composition) : Type 0 where
  pub phase : c.phase ≡ Phase.ready
  pub level : c.verification_level ≢ "none"

-- The desired state is kept, a composition that is ready stays so, and then only lawful calls are
-- made.
pub record Steady (u v : Worker) : Type 0 where
  pub intent_kept : intent v.comp ≡ intent u.comp
  pub bright : Bright u.comp → Bright v.comp
  pub lawful : Bright u.comp → AllLawful u.history → AllLawful v.history

pub Steady-IsTrail : IsTrail Steady
Steady-IsTrail = record {
  stay = λ w. record { intent_kept = refl; bright = λ b. b; lawful = λ b h. h };
  follow = λ u v w p q. record {
    intent_kept = q.intent_kept ∙ p.intent_kept;
    bright = λ b. q.bright (p.bright b);
    lawful = λ b h. q.lawful (p.bright b) (p.lawful b h);
  };
}

pub Steady-bind :
    {A B : Type 0} (m : M A) (f : A → M B)
    → Keeps Steady m
    → ((a : A) → Keeps Steady (f a))
    → Keeps Steady (m >>= f)
Steady-bind = Keeps-bind Steady-IsTrail

pub Steady-pure : {A : Type 0} (a : A) → Keeps Steady (pure a)
Steady-pure = Keeps-pure Steady-IsTrail

pub Steady-gets : {A : Type 0} (f : Composition → A) → Keeps Steady (gets f)
Steady-gets = Keeps-gets Steady-IsTrail

pub Steady-ask :
    {B : Type 0} (q : Request) (a : History → Res B)
    → ((h : History) → IsLawful q h)
    → Keeps Steady (ask q a)
unfolding ask
Steady-ask q a l = record {
  at = λ w. record { intent_kept = refl; bright = λ b. b; lawful = λ b h. (l w.history, h) };
}

pub Steady-clock : (o : Oracle) → Keeps Steady (clock o)
unfolding clock
Steady-clock o = Steady-ask _ _ (λ h. tt)

pub Steady-schedule : (t : Time) → Keeps Steady (modify (Failure.schedule t))
unfolding modify intent
Steady-schedule t = record {
  at = λ w. record {
    intent_kept = refl;
    bright = λ b. record { phase = b.phase; level = b.level };
    lawful = λ b h. h;
  };
}

-- `pure none` passes its value on.
pub bind_none :
    (f : Option Err → M (Unit {0})) → Keeps Steady (f none) → Keeps Steady (pure none >>= f)
unfolding ◌>>=◌ pure
bind_none f k = record { at = λ w. k.at w }

pub ruleset steady_rules =
    (Steady-bind, Steady-pure, Steady-gets, Steady-clock, Steady-schedule, Keeps-if)
