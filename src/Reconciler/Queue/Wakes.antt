-- ===== src/Reconciler/Queue/Wakes.antt =====
-- internal/reconciler/queue.go: over any run of events, the index stands for the compositions that
-- were seen since the last sweep, and an event in one of their namespaces wakes their domain.
use envy.Common.{
  ◌≡◌, refl, sym, subst, ◌∙◌, ◌↔◌, inl, inr, String, Bool, List, [], ◌∷◌, ◌++◌, ap, Map, lookup,
  if◌then◌else◌, str_eq, Bool-cases, none, some,
}
use mathlib.Core.List.{Memᴰ, append_assoc}
use mathlib.Core.List.Memᴰ
use envy.Model.{Composition}
use envy.Reconciler.Effects.{Res, ok, failed}
use envy.Reconciler.Queue.{
  RoutingKey, routing_key, QueueSession, QueueCall, add, namespaces, keys_of, index, index_each,
  enqueue, enqueue_all, enqueue_everything, sweep, namespace_changed, index_returned,
  desired_changed, Event, swept, in_namespace, of_desired, handle, handle_all, new_session,
}
use envy.Reconciler.Queue.Index.{Covers, Represents, Represents-index}

-- The compositions of a list on top of others, the last one first.
abbrev pub pile : List Composition → List Composition → List Composition
pile [] seen = seen
pile (c ∷ cs) seen = pile cs (c ∷ seen)

abbrev pub seen_in_sweep : Res (List Composition) → List Composition → List Composition
seen_in_sweep (ok all) seen = pile all []
seen_in_sweep (failed e) seen = seen

abbrev pub seen_returned : Res Composition → List Composition → List Composition
seen_returned (ok c) seen = c ∷ seen
seen_returned (failed e) seen = seen

-- The compositions that were read since the last sweep that succeeded, and in it.
abbrev pub seen_at : Event → List Composition → List Composition
seen_at (swept all) seen = seen_in_sweep all seen
seen_at (in_namespace ns) seen = seen
seen_at (of_desired id all one) seen =
    if str_eq id "" then seen_in_sweep all seen else seen_returned one seen

abbrev pub seen : List Event → List Composition → List Composition
seen [] cs = cs
seen (e ∷ es) cs = seen es (seen_at e cs)

index_each-Represents :
    (cs : List Composition) (acc : List Composition) (s : QueueSession)
    → Represents acc s.by_namespace
    → Represents (pile cs acc) (index_each cs s).by_namespace
unfolding index
index_each-Represents [] acc s r = r
index_each-Represents (c ∷ cs) acc s r =
    index_each-Represents cs (c ∷ acc) _ (Represents-index c acc s.by_namespace r)

nothing : Represents [] []
nothing = record { sound = λ k ns h. elim h [ ]; complete = λ k ns q. uncovered k ns q }
  where
    uncovered : (k : RoutingKey) (ns : String) → Covers [] k ns → Memᴰ k []
    uncovered k ns (Covers.covered c h e q) = elim h [ ]

sweep-Represents :
    (r : Res (List Composition)) (cs : List Composition) (s : QueueSession)
    → Represents cs s.by_namespace
    → Represents (seen_in_sweep r cs) (sweep r s).by_namespace
unfolding sweep
sweep-Represents (ok all) cs s r = index_each-Represents all [] _ nothing
sweep-Represents (failed e) cs s r = r

index_returned-Represents :
    (r : Res Composition) (cs : List Composition) (s : QueueSession)
    → Represents cs s.by_namespace
    → Represents (seen_returned r cs) (index_returned r s).by_namespace
unfolding index
index_returned-Represents (ok c) cs s r = Represents-index c cs s.by_namespace r
index_returned-Represents (failed e) cs s r = r

-- Adding to the queue leaves the index as it is.
enqueue_all-index :
    (keys : List RoutingKey) (s : QueueSession) → (enqueue_all keys s).by_namespace ≡ s.by_namespace
enqueue_all-index [] s = refl
enqueue_all-index (k ∷ keys) s = enqueue_all-index keys (enqueue k s)

enqueue_everything-index :
    (m : Map (List RoutingKey)) (s : QueueSession)
    → (enqueue_everything m s).by_namespace ≡ s.by_namespace
enqueue_everything-index [] s = refl
enqueue_everything-index ((_, keys) ∷ m) s =
    enqueue_everything-index m (enqueue_all keys s) ∙ enqueue_all-index keys s

namespace_changed-index :
    (ns : String) (s : QueueSession) → (namespace_changed ns s).by_namespace ≡ s.by_namespace
unfolding namespace_changed
namespace_changed-index ns s = elim (Bool-cases (str_eq ns "")) [
  | inl every ↦ rw every (enqueue_everything-index s.by_namespace s)
  | inr one ↦ rw one (enqueue_all-index (keys_of ns s.by_namespace) s)
]

handle-Represents :
    (e : Event) (cs : List Composition) (s : QueueSession)
    → Represents cs s.by_namespace
    → Represents (seen_at e cs) (handle e s).by_namespace
unfolding handle desired_changed
handle-Represents (swept all) cs s r = sweep-Represents all cs s r
handle-Represents (in_namespace ns) cs s r =
    subst (Represents cs) (sym (namespace_changed-index ns s)) r
handle-Represents (of_desired id all one) cs s r = elim (Bool-cases (str_eq id "")) [
  | inl every ↦ rw every (sweep-Represents all cs s r)
  | inr named ↦ rw named (index_returned-Represents one cs s r)
]

handle_all-Represents :
    (es : List Event) (cs : List Composition) (s : QueueSession)
    → Represents cs s.by_namespace
    → Represents (seen es cs) (handle_all es s).by_namespace
unfolding handle_all
handle_all-Represents [] cs s r = r
handle_all-Represents (e ∷ es) cs s r =
    handle_all-Represents es (seen_at e cs) (handle e s) (handle-Represents e cs s r)

-- After any run of events, the index has a routing key for a namespace just when it is that of a
-- composition read since the last sweep that succeeded, and the namespace is one of it.
pub handle_all-Covers :
    (es : List Event) (k : RoutingKey) (ns : String)
    → Memᴰ k (keys_of ns (handle_all es new_session).by_namespace) ↔ Covers (seen es []) k ns
handle_all-Covers es k ns =
    let r = handle_all-Represents es [] new_session nothing in (r.sound k ns, r.complete k ns)

-- The calls that are added to those before, the latest first.
pub record Grown (before after : List QueueCall) : Type 0 where
  pub added : List QueueCall
  pub grown : after ≡ added ++ before

-- A routing key is among those that are added.
pub record IsWoken (k : RoutingKey) (before after : List QueueCall) : Type 0 where
  pub added : List QueueCall
  pub grown : after ≡ added ++ before
  pub woken : Memᴰ (add k) added

Grown-refl : (calls : List QueueCall) → Grown calls calls
Grown-refl calls = record { added = []; grown = refl }

IsWoken-later :
    (k : RoutingKey) (a b c : List QueueCall) → Grown a b → IsWoken k b c → IsWoken k a c
IsWoken-later k a b c g w = record {
  added = w.added ++ g.added;
  grown = w.grown ∙ ap (λ x. w.added ++ x) g.grown ∙ sym (append_assoc w.added g.added a);
  woken = Memᴰ.append_left g.added w.woken;
}

IsWoken-earlier :
    (k : RoutingKey) (a b c : List QueueCall) → IsWoken k a b → Grown b c → IsWoken k a c
IsWoken-earlier k a b c w g = record {
  added = g.added ++ w.added;
  grown = g.grown ∙ ap (λ x. g.added ++ x) w.grown ∙ sym (append_assoc g.added w.added a);
  woken = Memᴰ.append_right g.added w.woken;
}

Grown-trans : (a b c : List QueueCall) → Grown a b → Grown b c → Grown a c
Grown-trans a b c g h = record {
  added = h.added ++ g.added;
  grown = h.grown ∙ ap (λ x. h.added ++ x) g.grown ∙ sym (append_assoc h.added g.added a);
}

enqueue-Grown : (k : RoutingKey) (s : QueueSession) → Grown s.calls (enqueue k s).calls
enqueue-Grown k s = record { added = add k ∷ []; grown = refl }

enqueue-IsWoken :
    (k j : RoutingKey) (s : QueueSession) → k ≡ j → IsWoken k s.calls (enqueue j s).calls
enqueue-IsWoken k j s e = record { added = add j ∷ []; grown = refl; woken = Memᴰ.head (ap add e) }

enqueue_all-Grown :
    (keys : List RoutingKey) (s : QueueSession) → Grown s.calls (enqueue_all keys s).calls
enqueue_all-Grown [] s = Grown-refl s.calls
enqueue_all-Grown (k ∷ keys) s =
    Grown-trans _ (enqueue k s).calls _ (enqueue-Grown k s) (enqueue_all-Grown keys (enqueue k s))

enqueue_all-IsWoken :
    (keys : List RoutingKey) (s : QueueSession) (k : RoutingKey)
    → Memᴰ k keys
    → IsWoken k s.calls (enqueue_all keys s).calls
enqueue_all-IsWoken [] s k h = elim h [ ]
enqueue_all-IsWoken (j ∷ keys) s k (Memᴰ.head e) =
    IsWoken-earlier k _ (enqueue j s).calls _ (enqueue-IsWoken k j s e)
      (enqueue_all-Grown keys (enqueue j s))
enqueue_all-IsWoken (j ∷ keys) s k (Memᴰ.tail h) =
    IsWoken-later k _ (enqueue j s).calls _ (enqueue-Grown j s)
      (enqueue_all-IsWoken keys (enqueue j s) k h)

enqueue_everything-Grown :
    (m : Map (List RoutingKey)) (s : QueueSession) → Grown s.calls (enqueue_everything m s).calls
enqueue_everything-Grown [] s = Grown-refl s.calls
enqueue_everything-Grown ((_, keys) ∷ m) s =
    Grown-trans _ (enqueue_all keys s).calls _ (enqueue_all-Grown keys s)
      (enqueue_everything-Grown m (enqueue_all keys s))

enqueue_everything-IsWoken :
    (m : Map (List RoutingKey)) (s : QueueSession) (ns : String) (k : RoutingKey)
    → Memᴰ k (keys_of ns m)
    → IsWoken k s.calls (enqueue_everything m s).calls
enqueue_everything-IsWoken [] s ns k h = elim h [ ]
enqueue_everything-IsWoken ((n, keys) ∷ m) s ns k h = elim (Bool-cases (str_eq n ns)) [
  | inl same ↦
      IsWoken-earlier k _ (enqueue_all keys s).calls _
        (enqueue_all-IsWoken keys s k (subst (λ b. Memᴰ k (found b)) same h))
        (enqueue_everything-Grown m (enqueue_all keys s))
  | inr other ↦ IsWoken-later k _ (enqueue_all keys s).calls _ (enqueue_all-Grown keys s) (
      enqueue_everything-IsWoken m (enqueue_all keys s) ns k
        (subst (λ b. Memᴰ k (found b)) other h))
]
  where
    found : Bool → List RoutingKey
    found b = elim (if b then some keys else lookup ns m) [ none ↦ [] | some v ↦ v ]

-- After any run of events, an event in a namespace of a composition that was read since the last
-- sweep that succeeded only adds to the calls of the queue, and its routing key is among those added.
pub handle_all-wakes :
    (es : List Event) (c : Composition) (ns : String)
    → Memᴰ c (seen es [])
    → Memᴰ ns (namespaces c)
    → IsWoken
        (routing_key c)
        (handle_all es new_session).calls
        (namespace_changed ns (handle_all es new_session)).calls
unfolding namespace_changed
handle_all-wakes es c ns read named =
    let s = handle_all es new_session in
    let h = (handle_all-Covers es (routing_key c) ns).1 (Covers.covered c read refl named) in
    elim (Bool-cases (str_eq ns "")) [
      | inl every ↦ rw every (enqueue_everything-IsWoken s.by_namespace s ns (routing_key c) h)
      | inr one ↦ rw one (enqueue_all-IsWoken (keys_of ns s.by_namespace) s (routing_key c) h)
    ]
