-- ===== src/Domain/Workload/Graph/Acyclic.antt =====
-- internal/domain/workload.go: `ValidateExecutionGraph` lets no cycle of dependencies pass.
use envy.Common.{
  ℕ, suc, ◌≤◌, ◌<◌, ◌≡◌, ◌∙◌, ap, sym, subst, String, Bool, true, false, List, [], ◌∷◌, all, length,
  Map, keys, if◌then◌else◌, str_eq, eq_iff, arith, Bool-cases, inl, inr, &&-split,
}
use envy.Model.{Component}
use envy.Domain.Workload.Graph.{
  Marks, Visit, cycle, out_of_fuel, visited, marked, visit, search_cycles, declared,
}
use envy.Domain.Workload.Graph.Fuel.{declared-keys}
use envy.Domain.Workload.Graph.Order.{Ordered, Covers, Search, visit_all-Search, visit-Search}

-- One component depends on another, over one declared dependency or more.
pub data Depends (components : Map Component) : String → String → Type 0 where
  directly : {a b : String} → marked b (declared components a) ≡ true → Depends components a b
  through :
      {a b : String} (x : String)
      → marked x (declared components a) ≡ true
      → Depends components x b
      → Depends components a b

-- How many components became complete before this one, and it with them.
rank : List String → String → ℕ
rank [] a = 0
rank (x ∷ c) a = if str_eq x a then suc (length c) else rank c a

rank_bound : (c : List String) (a : String) → rank c a ≤ length c
unfolding rank
rank_bound [] a = omega arith
rank_bound (x ∷ c) a = ground (arith, rank_bound c a)

all-marked :
    (P : String → Bool) (ds : List String) (d : String)
    → all P ds ≡ true
    → marked d ds ≡ true
    → P d ≡ true
all-marked P [] d h m = cc
all-marked P (x ∷ ds) d h m = elim (Bool-cases (str_eq d x)) [
  | inl same ↦ ap P ((eq_iff d x).0 same) ∙ (&&-split _ _ h).0
  | inr other ↦ all-marked P ds d ((&&-split (P x) _ h).1) (rw other at m)
]

distinct :
    (x b : String) (c : List String) → marked x c ≡ false → marked b c ≡ true → str_eq x b ≡ false
distinct x b c fresh known = elim (Bool-cases (str_eq x b)) [
  | inr apart ↦ apart
  | inl same ↦ cc (fresh, known, ap (λ k. marked k c) ((eq_iff x b).0 same))
]

rest_marked :
    (a x : String) (c : List String)
    → marked a (x ∷ c) ≡ true
    → str_eq a x ≡ false
    → marked a c ≡ true
rest_marked a x c m other = rw other at m

module _ (components : Map Component) where
  -- A dependency became complete before.
  rank-drops :
      (c : List String) (a b : String)
      → Ordered components c
      → marked a c ≡ true
      → marked b (declared components a) ≡ true
      → (rank c b < rank c a) × (marked b c ≡ true)
  unfolding rank
  rank-drops [] a b o m d = cc
  rank-drops (x ∷ c) a b (fresh, covered, o) m d = elim (Bool-cases (str_eq a x)) [
    | inl same ↦
        let e = (eq_iff a x).0 same in
        let known =
          all-marked (λ k. marked k c) (declared components x) b covered
            (subst (λ k. marked b (declared components k) ≡ true) e d) in
        (
          rw (distinct x b c fresh known)
              (rw ((eq_iff x a).1 (sym e)) (omega (arith, rank_bound c b))),
          ground (arith, known),
        )
    | inr other ↦
        let known = rest_marked a x c m other in
        let (less, found) = rank-drops c a b o known d in
        (
          rw (distinct x b c fresh found) (rw (distinct x a c fresh known) less),
          ground (arith, found),
        )
  ]

  no_cycle :
      (c : List String) (a b : String)
      → Ordered components c
      → marked a c ≡ true
      → Depends components a b
      → rank c b < rank c a
  no_cycle c a b o m (Depends.directly d) = (rank-drops c a b o m d).0
  no_cycle c a b o m (Depends.through x d rest) =
      let (less, known) = rank-drops c a x o m d in omega (arith, less, no_cycle c x b o known rest)

  first_step :
      (a b : String)
      → Depends components a b
      → (x : String) × (marked x (declared components a) ≡ true)
  first_step a b (Depends.directly d) = (b, d)
  first_step a b (Depends.through x d rest) = (x, d)

  Depends-keys : (a b : String) → Depends components a b → marked a (keys components) ≡ true
  Depends-keys a b d = elim (declared-keys components a) [
    | inr known ↦ known
    | inl childless ↦
        let (x, m) = first_step a b d in cc (subst (λ ds. marked x ds ≡ true) childless m)
  ]

  searched :
      Search components
        (Covers components (keys components))
        (record { visiting = []; complete = [] })
        (search_cycles components)
  unfolding search_cycles
  searched =
      visit_all-Search components (visit components (suc (length (keys components))))
        (λ d m. visit-Search components (suc (length (keys components))) d m) (keys components) _

  -- Where the search for cycles ends with all components visited, none depends on itself, over one
  -- declared dependency or more.
  pub search_cycles-acyclic :
      (m : Marks) (a : String) → search_cycles components ≡ visited m → ¬ Depends components a a
  search_cycles-acyclic m a e d = ended (search_cycles components) searched e
    where
      ended :
          (r : Visit)
          → Search components
              (Covers components (keys components))
              (record { visiting = []; complete = [] })
              r
          → r ≡ visited m
          → ⊥
      ended cycle Search.found q = cc
      ended out_of_fuel Search.spent q = cc
      ended (visited n) (Search.returned _ g h) q = irreflexive (
          no_cycle n.complete a a (g.ordered tt)
            (all-marked (λ k. marked k n.complete) (keys components) a h (Depends-keys a a d)) d)
        where
          irreflexive : {k : ℕ} → k < k → ⊥
          irreflexive x = omega arith
