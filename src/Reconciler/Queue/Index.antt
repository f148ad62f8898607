-- ===== src/Reconciler/Queue/Index.antt =====
-- internal/reconciler/queue.go: the index by namespace is a set of pairs of a namespace and a
-- routing key, one for each composition that was seen and each of its namespaces.
use envy.Common.{
  ◌≡◌, refl, sym, ap, subst, ◌∙◌, ◌⊎◌, inl, inr, String, Bool, true, false, List, [], ◌∷◌, Map, any,
  lookup, insert, lookup-insert, if◌then◌else◌, str_eq, eq_iff, eq_refl, none, some, Bool-cases,
  &&-split, arith,
}
use mathlib.Core.List.{Memᴰ}
use envy.Model.{Composition}
use envy.Reconciler.Queue.{
  RoutingKey, same_key, routing_key, insert_key, namespaces, keys_of, index_namespaces,
}

same_key-same : (a b : RoutingKey) → same_key a b ≡ true → a ≡ b
same_key-same a b e =
    let (p, q) = &&-split (str_eq a.project b.project) (str_eq a.baseline b.baseline) e in
    cc ((eq_iff a.project b.project).0 p, (eq_iff a.baseline b.baseline).0 q)

any-same_key :
    (k : RoutingKey) (keys : List RoutingKey) → any (same_key k) keys ≡ true → Memᴰ k keys
any-same_key k [] e = cc
any-same_key k (j ∷ keys) e = elim (Bool-cases (same_key k j)) [
  | inl same ↦ Memᴰ.head (same_key-same k j same)
  | inr other ↦ Memᴰ.tail (any-same_key k keys (ground (arith, other)))
]

-- Adding to a set of keys.
insert_key-Memᴰ : (k : RoutingKey) (keys : List RoutingKey) → Memᴰ k (insert_key k keys)
insert_key-Memᴰ k keys = elim (Bool-cases (any (same_key k) keys)) [
  | inl known ↦ rw known (any-same_key k keys known)
  | inr new ↦ rw new (Memᴰ.head refl)
]

insert_key-kept :
    (k j : RoutingKey) (keys : List RoutingKey) → Memᴰ j keys → Memᴰ j (insert_key k keys)
insert_key-kept k j keys m = elim (Bool-cases (any (same_key k) keys)) [
  | inl known ↦ rw known m
  | inr new ↦ rw new (Memᴰ.tail m)
]

insert_key-only :
    (k j : RoutingKey) (keys : List RoutingKey) → Memᴰ j (insert_key k keys) → (j ≡ k) ⊎ Memᴰ j keys
insert_key-only k j keys m = elim (Bool-cases (any (same_key k) keys)) [
  | inl known ↦ inr (subst (λ b. Memᴰ j (if b then keys else k ∷ keys)) known m)
  | inr new ↦ first (subst (λ b. Memᴰ j (if b then keys else k ∷ keys)) new m)
]
  where
    first : Memᴰ j (k ∷ keys) → (j ≡ k) ⊎ Memᴰ j keys
    first (Memᴰ.head e) = inl e
    first (Memᴰ.tail m') = inr m'

keys_of-insert :
    (n ns : String) (v : List RoutingKey) (m : Map (List RoutingKey))
    → keys_of ns (insert n v m) ≡ (if str_eq n ns then v else keys_of ns m)
keys_of-insert n ns v m =
    ap (λ o. elim o [ none ↦ [] | some w ↦ w ]) (lookup-insert n ns v m) ∙ either (str_eq n ns)
  where
    either :
        (b : Bool)
        → (elim (if b then some v else lookup ns m) [ none ↦ [] | some w ↦ w ])
          ≡ (if b then v else keys_of ns m)
    either true = refl
    either false = refl

-- One more pair in the index.
module _ (k : RoutingKey) (n : String) (m : Map (List RoutingKey)) where
  paired : Map (List RoutingKey)
  paired = insert n (insert_key k (keys_of n m)) m

  paired-new : Memᴰ k (keys_of n paired)
  unfolding paired
  paired-new =
      rw (keys_of-insert n n (insert_key k (keys_of n m)) m, eq_refl n)
        (insert_key-Memᴰ k (keys_of n m))

  paired-kept : (j : RoutingKey) (ns : String) → Memᴰ j (keys_of ns m) → Memᴰ j (keys_of ns paired)
  unfolding paired
  paired-kept j ns h = elim (Bool-cases (str_eq n ns)) [
    | inl same ↦
        rw (keys_of-insert n ns (insert_key k (keys_of n m)) m, same)
          (insert_key-kept k j (keys_of n m)
            (subst (λ x. Memᴰ j (keys_of x m)) (sym ((eq_iff n ns).0 same)) h))
    | inr other ↦ rw (keys_of-insert n ns (insert_key k (keys_of n m)) m, other) h
  ]

  paired-only :
      (j : RoutingKey) (ns : String)
      → Memᴰ j (keys_of ns paired)
      → Memᴰ j (keys_of ns m) ⊎ ((j ≡ k) × (n ≡ ns))
  unfolding paired
  paired-only j ns h = elim (Bool-cases (str_eq n ns)) [
    | inl same ↦ at_name ((eq_iff n ns).0 same) (
        insert_key-only k j (keys_of n m) (
          subst (Memᴰ j)
            (keys_of-insert n ns (insert_key k (keys_of n m)) m
              ∙ ap (λ b. if b then insert_key k (keys_of n m) else keys_of ns m) same)
            h))
    | inr other ↦ inl (
        subst (Memᴰ j)
          (keys_of-insert n ns (insert_key k (keys_of n m)) m
            ∙ ap (λ b. if b then insert_key k (keys_of n m) else keys_of ns m) other)
          h)
  ]
    where
      at_name :
          n ≡ ns → (j ≡ k) ⊎ Memᴰ j (keys_of n m) → Memᴰ j (keys_of ns m) ⊎ ((j ≡ k) × (n ≡ ns))
      at_name e (inl s) = inr (s, e)
      at_name e (inr h') = inl (subst (λ x. Memᴰ j (keys_of x m)) e h')

-- A routing key of a namespace in a list of them.
abbrev Names : RoutingKey → List String → RoutingKey → String → Type 0
Names k names j ns = (j ≡ k) × Memᴰ ns names

index_namespaces-kept :
    (k j : RoutingKey) (ns : String) (names : List String) (m : Map (List RoutingKey))
    → Memᴰ j (keys_of ns m)
    → Memᴰ j (keys_of ns (index_namespaces k names m))
unfolding paired
index_namespaces-kept k j ns [] m h = h
index_namespaces-kept k j ns (n ∷ names) m h =
    index_namespaces-kept k j ns names (paired k n m) (paired-kept k n m j ns h)

index_namespaces-new :
    (k : RoutingKey) (ns : String) (names : List String) (m : Map (List RoutingKey))
    → Memᴰ ns names
    → Memᴰ k (keys_of ns (index_namespaces k names m))
unfolding paired
index_namespaces-new k ns [] m h = elim h [ ]
index_namespaces-new k ns (n ∷ names) m (Memᴰ.head e) =
    index_namespaces-kept k k ns names (paired k n m)
      (subst (λ x. Memᴰ k (keys_of x (paired k n m))) (sym e) (paired-new k n m))
index_namespaces-new k ns (n ∷ names) m (Memᴰ.tail h) =
    index_namespaces-new k ns names (paired k n m) h

index_namespaces-only :
    (k j : RoutingKey) (ns : String) (names : List String) (m : Map (List RoutingKey))
    → Memᴰ j (keys_of ns (index_namespaces k names m))
    → Memᴰ j (keys_of ns m) ⊎ Names k names j ns
unfolding paired
index_namespaces-only k j ns [] m h = inl h
index_namespaces-only k j ns (n ∷ names) m h =
    later (index_namespaces-only k j ns names (paired k n m) h)
  where
    here :
        Memᴰ j (keys_of ns m) ⊎ ((j ≡ k) × (n ≡ ns))
        → Memᴰ j (keys_of ns m) ⊎ Names k (n ∷ names) j ns
    here (inl h') = inl h'
    here (inr (s, e)) = inr (s, Memᴰ.head (sym e))

    later :
        Memᴰ j (keys_of ns (paired k n m)) ⊎ Names k names j ns
        → Memᴰ j (keys_of ns m) ⊎ Names k (n ∷ names) j ns
    later (inl h') = here (paired-only k n m j ns h')
    later (inr (s, q)) = inr (s, Memᴰ.tail q)

-- The pairs that a list of compositions stands for.
pub data Covers (cs : List Composition) (k : RoutingKey) (ns : String) : Type 0 where
  covered :
      (c : Composition) → Memᴰ c cs → k ≡ routing_key c → Memᴰ ns (namespaces c) → Covers cs k ns

pub Covers-tail :
    (c : Composition) (cs : List Composition) (k : RoutingKey) (ns : String)
    → Covers cs k ns
    → Covers (c ∷ cs) k ns
Covers-tail c cs k ns (Covers.covered d h e q) = Covers.covered d (Memᴰ.tail h) e q

-- An index holds just the pairs of some compositions.
pub record Represents (cs : List Composition) (m : Map (List RoutingKey)) : Type 0 where
  pub sound : (k : RoutingKey) (ns : String) → Memᴰ k (keys_of ns m) → Covers cs k ns
  pub complete : (k : RoutingKey) (ns : String) → Covers cs k ns → Memᴰ k (keys_of ns m)

pub Represents-index :
    (c : Composition) (cs : List Composition) (m : Map (List RoutingKey))
    → Represents cs m
    → Represents (c ∷ cs) (index_namespaces (routing_key c) (namespaces c) m)
Represents-index c cs m r = record {
  sound = λ k ns h. back k ns (index_namespaces-only (routing_key c) k ns (namespaces c) m h);
  complete = λ k ns q. forth k ns q;
}
  where
    back :
        (k : RoutingKey) (ns : String)
        → Memᴰ k (keys_of ns m) ⊎ Names (routing_key c) (namespaces c) k ns
        → Covers (c ∷ cs) k ns
    back k ns (inl h) = Covers-tail c cs k ns (r.sound k ns h)
    back k ns (inr (e, q)) = Covers.covered c (Memᴰ.head refl) e q

    forth :
        (k : RoutingKey) (ns : String)
        → Covers (c ∷ cs) k ns
        → Memᴰ k (keys_of ns (index_namespaces (routing_key c) (namespaces c) m))
    forth k ns (Covers.covered d (Memᴰ.head e') e q) =
        subst (λ x. Memᴰ x (keys_of ns (index_namespaces (routing_key c) (namespaces c) m)))
          (sym (e ∙ ap (λ x. routing_key x) e'))
          (index_namespaces-new (routing_key c) ns (namespaces c) m
            (subst (λ x. Memᴰ ns (namespaces x)) e' q))
    forth k ns (Covers.covered d (Memᴰ.tail h) e q) =
        index_namespaces-kept (routing_key c) k ns (namespaces c) m
          (r.complete k ns (Covers.covered d h e q))
