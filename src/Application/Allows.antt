-- ===== src/Application/Allows.antt =====
-- Rules for what an action asks and returns: `Allows P G m` says that `m` only makes queries of
-- which `P` holds, and returns, where it does not fail, a value of which `G` holds. One rule for
-- each way in which the service's actions are built.
use envy.Common.{String, Bool, true, false, Option, none, some, ◌≡◌, refl, All, if◌then◌else◌}
use envy.Model.{Err, Error}
use envy.Application.Backend.{
  Query, History, Outcome, returned, failed, Action, proceed, ◌>>=◌, pure, fail, query, attempt,
  require, check,
}

abbrev pub Meets : {A : Type 0} → (A → Type 0) → Outcome A → Type 0
Meets G (returned a) = G a
Meets G (failed e) = Unit

-- An answer that is given after some queries.
abbrev pub Answered : {A : Type 0} → (History → Outcome A) → A → Type 0
Answered answer a = (h : History) × (answer h ≡ returned a)

Meets-Answered :
    {A : Type 0} (answer : History → Outcome A) (h : History) (r : Outcome A)
    → answer h ≡ r
    → Meets (Answered answer) r
Meets-Answered answer h (returned a) e = (h, e)
Meets-Answered answer h (failed x) e = tt

abbrev pub Anything : {A : Type 0} → A → Type 0
Anything a = Unit

pub Meets-Anything : {A : Type 0} (r : Outcome A) → Meets Anything r
Meets-Anything (returned a) = tt
Meets-Anything (failed e) = tt

Meets-weaken :
    {A : Type 0} {F G : A → Type 0}
    → ((a : A) → F a → G a)
    → (r : Outcome A) → Meets F r
    → Meets G r
Meets-weaken f (returned a) g = f a g
Meets-weaken f (failed e) g = tt

pub record Allows {A : Type 0} (P : Query → Type 0) (G : A → Type 0) (m : Action A) : Type 0 where
  pub queries : (h : History) → All P h → All P (m h).1
  pub value : (h : History) → Meets G (m h).0

module _ {P : Query → Type 0} where
  pub Allows-pure : {A : Type 0} {G : A → Type 0} (a : A) → G a → Allows P G (pure a)
  unfolding pure
  Allows-pure a g = record { queries = λ h k. k; value = λ h. g }

  pub Allows-fail : {A : Type 0} {G : A → Type 0} (e : Err) → Allows P G (fail e)
  unfolding fail
  Allows-fail e = record { queries = λ h k. k; value = λ h. tt }

  pub Allows-query :
      {A : Type 0} {G : A → Type 0} (q : Query) (answer : History → Outcome A)
      → P q
      → ((h : History) → Meets G (answer h))
      → Allows P G (query q answer)
  unfolding query
  Allows-query q answer p g = record { queries = λ h k. (p, k); value = g }

  -- A query whose answer is not looked at.
  pub Allows-ask :
      {A : Type 0} (q : Query) (answer : History → Outcome A)
      → P q
      → Allows P Anything (query q answer)
  Allows-ask q answer p = Allows-query q answer p (λ h. Meets-Anything (answer h))

  module _ {A B : Type 0} {F : A → Type 0} {G : B → Type 0} (f : A → Action B)
      (kf : (a : A) → F a → Allows P G (f a)) where
    proceed-queries : (r : Outcome A) (h : History) → Meets F r → All P h → All P (proceed r f h).1
    proceed-queries (returned a) h g k = (kf a g).queries h k
    proceed-queries (failed e) h g k = k

    proceed-value : (r : Outcome A) (h : History) → Meets F r → Meets G (proceed r f h).0
    proceed-value (returned a) h g = (kf a g).value h
    proceed-value (failed e) h g = tt

  pub Allows-bind :
      {A B : Type 0} {G : B → Type 0} (F : A → Type 0) {m : Action A} {f : A → Action B}
      → ((a : A) → F a → Allows P G (f a))
      → Allows P F m
      → Allows P G (m >>= f)
  unfolding ◌>>=◌
  Allows-bind F kf km = record {
    queries = λ h k. proceed-queries _ kf _ _ (km.value h) (km.queries h k);
    value = λ h. proceed-value _ kf _ _ (km.value h);
  }

  -- After an action of whose value nothing is asked.
  pub Allows-then :
      {A B : Type 0} {G : B → Type 0} (m : Action A) (f : A → Action B)
      → Allows P Anything m
      → ((a : A) → Allows P G (f a))
      → Allows P G (m >>= f)
  Allows-then m f km kf = Allows-bind Anything (λ a _. kf a) km

  pub Allows-attempt :
      {A : Type 0} {G : A → Type 0} (m : Action A) → Allows P G m → Allows P (Meets G) (attempt m)
  unfolding attempt
  Allows-attempt m k = record { queries = k.queries; value = k.value }

  pub Allows-if :
      {A : Type 0} {G : A → Type 0} (b : Bool) (m n : Action A)
      → Allows P G m
      → Allows P G n
      → Allows P G (if b then m else n)
  Allows-if true m n km kn = km
  Allows-if false m n km kn = kn

  -- A check that passed.
  pub Allows-require : (b : Bool) (message : String) → Allows P (λ _. b ≡ true) (require b message)
  unfolding require
  Allows-require true message = Allows-pure tt refl
  Allows-require false message = Allows-fail _

  pub Allows-check : (e : Option Error) → Allows P (λ _. e ≡ none) (check e)
  unfolding check
  Allows-check none = Allows-pure tt refl
  Allows-check (some e) = Allows-fail _

  pub Allows-weaken :
      {A : Type 0} {F G : A → Type 0} (f : (a : A) → F a → G a) (m : Action A)
      → Allows P F m
      → Allows P G m
  Allows-weaken f m k = record {
    queries = k.queries;
    value = λ h. Meets-weaken f (m h).0 (k.value h);
  }

  -- After a query whose answer is not looked at.
  pub Allows-after :
      {A B : Type 0} {G : B → Type 0} (q : Query) (answer : History → Outcome A) (f : A → Action B)
      → ((a : A) → Allows P G (f a))
      → P q
      → Allows P G (query q answer >>= f)
  Allows-after q answer f kf p = Allows-then _ _ (Allows-ask _ _ p) kf

  -- After a query, with its answer.
  pub Allows-Answered :
      {A B : Type 0} {G : B → Type 0} (q : Query) (answer : History → Outcome A) (f : A → Action B)
      → ((a : A) → Answered answer a → Allows P G (f a))
      → P q
      → Allows P G (query q answer >>= f)
  Allows-Answered q answer f kf p =
      Allows-bind (Answered answer) kf
        (Allows-query q answer p (λ h. Meets-Answered answer h (answer h) refl))

  -- After a check that passed.
  pub Allows-given :
      {B : Type 0} {G : B → Type 0} (b : Bool) (message : String) (f : Unit {0} → Action B)
      → ((a : Unit {0}) → b ≡ true → Allows P G (f a))
      → Allows P G (require b message >>= f)
  Allows-given b message f kf = Allows-bind _ kf (Allows-require b message)

  pub Allows-checked :
      {B : Type 0} {G : B → Type 0} (e : Option Error) (f : Unit {0} → Action B)
      → ((a : Unit {0}) → e ≡ none → Allows P G (f a))
      → Allows P G (check e >>= f)
  Allows-checked e f kf = Allows-bind _ kf (Allows-check e)

  -- After a check that passes or fails with an error of its own.
  pub Allows-unless :
      {B : Type 0} {G : B → Type 0} (b : Bool) (e : Err) (f : Unit {0} → Action B)
      → ((a : Unit {0}) → b ≡ true → Allows P G (f a))
      → Allows P G ((if b then pure tt else fail e) >>= f)
  Allows-unless true e f kf = Allows-bind Anything (λ a h. kf a refl) (Allows-pure tt tt)
  Allows-unless false e f kf = Allows-bind (λ _. ⊥) (λ a h. elim h [ ]) (Allows-fail e)

  pub Allows-require_any : (b : Bool) (message : String) → Allows P Anything (require b message)
  Allows-require_any b message = Allows-weaken (λ _ _. tt) _ (Allows-require b message)

  pub Allows-check_any : (e : Option Error) → Allows P Anything (check e)
  Allows-check_any e = Allows-weaken (λ _ _. tt) _ (Allows-check e)

  pub ruleset reading_rules = (
    Allows-then, Allows-ask, Allows-require_any, Allows-check_any, Allows-if, Allows-pure,
    Allows-fail,
  )

-- An action that never fails, makes only queries of which `P` holds, and returns a value of which `G`
-- holds.
pub record Returns {A : Type 0} (P : Query → Type 0) (G : A → Type 0) (m : Action A) : Type 0 where
  pub queries : (h : History) → All P h → All P (m h).1
  pub value : (h : History) → (a : A) × (((m h).0 ≡ returned a) × G a)

module _ {P : Query → Type 0} where
  pub Returns-pure : {A : Type 0} {G : A → Type 0} (a : A) → G a → Returns P G (pure a)
  unfolding pure
  Returns-pure a g = record { queries = λ h k. k; value = λ h. (a, (refl, g)) }

  -- Where an error is handled, what follows decides.
  pub Returns-attempt :
      {A B : Type 0} {F : A → Type 0} {G : B → Type 0} (m : Action A) (f : Outcome A → Action B)
      → Allows P F m
      → ((h : History) (r : Outcome A) → (m h).0 ≡ r → Meets F r → Returns P G (f r))
      → Returns P G (attempt m >>= f)
  unfolding ◌>>=◌ attempt
  Returns-attempt m f km kf = record {
    queries = λ h k. (kf h (m h).0 refl (km.value h)).queries (m h).1 (km.queries h k);
    value = λ h. (kf h (m h).0 refl (km.value h)).value (m h).1;
  }
