-- ===== src/Domain/Messaging/Environment.antt =====
-- internal/domain/messaging.go: no workload of a composition is given a subscription of the
-- baseline.
use envy.Common.{
  ◌≡◌, ◌∙◌, ◌⊎◌, inl, inr, refl, ap, sym, subst, String, Bool, true, false, some, List, [], ◌∷◌,
  if◌then◌else◌, str_eq, eq_iff, eq_refl, arith, Map, lookup, insert, lookup-insert, Bool-cases,
}
use mathlib.Core.List.{Memᴰ}
use envy.Model.{Baseline, PubSubTopic, PubSubConsumer, MessageSubscription}
use envy.Domain.Messaging.Resolve.{
  messaging_environment, blank_consumers, blank_topics, bind_subscriptions,
}

module _ (component key : String) where
  -- The variable is empty, or names a subscription of the composition for this component.
  pub data IsPrivate (subs : List MessageSubscription) (env : Map String) : Type 0 where
    disabled : lookup key env ≡ some "" → IsPrivate subs env
    isolated :
        (s : MessageSubscription)
        → Memᴰ s subs
        → s.component ≡ component
        → s.subscription_env ≡ key
        → lookup key env ≡ some s.name
        → IsPrivate subs env

  insert-lookup :
      (k : String) (env : Map String)
      → lookup key env ≡ some ""
      → lookup key (insert k "" env) ≡ some ""
  insert-lookup k env h = ground (arith, lookup-insert k key "" env)

  blank_consumers-lookup :
      (cs : Map PubSubConsumer) (env : Map String)
      → lookup key env ≡ some ""
      → lookup key (blank_consumers component cs env) ≡ some ""
  blank_consumers-lookup [] env h = h
  blank_consumers-lookup ((id, c) ∷ cs) env h =
      blank_consumers-lookup cs _ (branch (str_eq c.component component))
    where
      branch :
          (b : Bool) → lookup key (if b then insert c.subscription_env "" env else env) ≡ some ""
      branch true = insert-lookup c.subscription_env env h
      branch false = h

  blank_topics-lookup :
      (ts : Map PubSubTopic) (env : Map String)
      → lookup key env ≡ some ""
      → lookup key (blank_topics component ts env) ≡ some ""
  blank_topics-lookup [] env h = h
  blank_topics-lookup ((name, t) ∷ ts) env h =
      blank_topics-lookup ts _ (blank_consumers-lookup t.consumers env h)

  -- A consumer of the component blanks its variable, whatever it held.
  blank_consumers-listed :
      (id : String) (c : PubSubConsumer) (cs : Map PubSubConsumer) (env : Map String)
      → Memᴰ (id, c) cs
      → c.component ≡ component
      → c.subscription_env ≡ key
      → lookup key (blank_consumers component cs env) ≡ some ""
  blank_consumers-listed id c [] env m own at = elim m [ ]
  blank_consumers-listed id c ((j, d) ∷ cs) env (Memᴰ.tail m) own at =
      blank_consumers-listed id c cs _ m own at
  blank_consumers-listed id c ((j, d) ∷ cs) env (Memᴰ.head e) own at = blank_consumers-lookup cs _ (
      blanked ((eq_iff d.component component).1 (ap (λ x. x.1.component) (sym e) ∙ own))
        (ap (λ x. x.1.subscription_env) (sym e) ∙ at))
    where
      blanked :
          str_eq d.component component ≡ true
          → d.subscription_env ≡ key
          → lookup key
              (if str_eq d.component component then insert d.subscription_env "" env else env)
            ≡ some ""
      blanked same here = rw same (
          subst (λ x. lookup key (insert x "" env) ≡ some "") (sym here)
            (rw (eq_refl key) at (lookup-insert key key "" env)))

  blank_topics-listed :
      (name : String) (t : PubSubTopic) (id : String) (c : PubSubConsumer) (ts : Map PubSubTopic)
      (env : Map String)
      → Memᴰ (name, t) ts
      → Memᴰ (id, c) t.consumers
      → c.component ≡ component
      → c.subscription_env ≡ key
      → lookup key (blank_topics component ts env) ≡ some ""
  blank_topics-listed name t id c [] env m n own at = elim m [ ]
  blank_topics-listed name t id c ((j, u) ∷ ts) env (Memᴰ.tail m) n own at =
      blank_topics-listed name t id c ts _ m n own at
  blank_topics-listed name t id c ((j, u) ∷ ts) env (Memᴰ.head e) n own at =
      blank_topics-lookup ts _ (
        blank_consumers-listed id c u.consumers env (subst (λ x. Memᴰ (id, c) (x.1.consumers)) e n)
          own at)

  -- Binding the subscriptions of the composition keeps the variable private.
  bind_subscriptions-IsPrivate :
      (all subs : List MessageSubscription) (env : Map String)
      → ((s : MessageSubscription) → Memᴰ s subs → Memᴰ s all)
      → IsPrivate all env
      → IsPrivate all (bind_subscriptions component subs env)
  bind_subscriptions-IsPrivate all [] env within h = h
  bind_subscriptions-IsPrivate all (s ∷ ss) env within h =
      bind_subscriptions-IsPrivate all ss _ (λ x m. within x (Memᴰ.tail m))
        (elim (Bool-cases (str_eq s.component component)) [
          | inr other ↦ rw other h
          | inl own ↦ rw own (bound own (Bool-cases (str_eq s.subscription_env key)))
        ])
    where
      unchanged :
          str_eq s.subscription_env key ≡ false
          → lookup key (insert s.subscription_env s.name env) ≡ lookup key env
      unchanged apart = rw apart at (lookup-insert s.subscription_env key s.name env)

      carried :
          IsPrivate all env
          → str_eq s.subscription_env key ≡ false
          → IsPrivate all (insert s.subscription_env s.name env)
      carried (disabled q) apart = disabled (unchanged apart ∙ q)
      carried (isolated x m c e q) apart = isolated x m c e (unchanged apart ∙ q)

      bound :
          str_eq s.component component ≡ true
          → (str_eq s.subscription_env key ≡ true) ⊎ (str_eq s.subscription_env key ≡ false)
          → IsPrivate all (insert s.subscription_env s.name env)
      bound own (inl same) =
          isolated s (within s (Memᴰ.head refl)) ((eq_iff _ _).0 own) ((eq_iff _ _).0 same)
            (rw same at (lookup-insert s.subscription_env key s.name env))
      bound own (inr apart) = carried h apart

-- The variable is empty, or isolation is on and it names a subscription of the composition.
pub data IsKept (component key : String) (on : Bool) (subs : List MessageSubscription)
    (env : Map String) : Type 0 where
  emptied : lookup key env ≡ some "" → IsKept component key on subs env
  bound : on ≡ true → IsPrivate component key subs env → IsKept component key on subs env

-- A workload of a composition never reads a subscription of the baseline: the variable of each
-- consumer of its component is empty, or isolation is on and it is empty or the name of a
-- subscription of the composition that is bound to the same component and variable.
pub messaging_environment-IsKept :
    (b : Baseline) (on : Bool) (subs : List MessageSubscription) (name : String) (t : PubSubTopic)
    (id : String) (c : PubSubConsumer)
    → Memᴰ (name, t) b.pubsub
    → Memᴰ (id, c) t.consumers
    → IsKept c.component c.subscription_env on subs (messaging_environment b c.component on subs)
unfolding messaging_environment
messaging_environment-IsKept b true subs name t id c m n = IsKept.bound refl (
    bind_subscriptions-IsPrivate c.component c.subscription_env subs subs _ (λ s k. k)
      (IsPrivate.disabled
        (blank_topics-listed c.component c.subscription_env name t id c b.pubsub _ m n refl refl)))
messaging_environment-IsKept b false subs name t id c m n =
    IsKept.emptied
      (blank_topics-listed c.component c.subscription_env name t id c b.pubsub _ m n refl refl)
