-- ===== src/Domain/Workload/Graph/Order.antt =====
-- internal/domain/workload.go: in the search of `ValidateExecutionGraph`, components come to
-- be complete in an order in which each follows those it depends on.
use envy.Common.{
  ℕ, zero, suc, ◌≡◌, ◌∙◌, refl, ap, sym, subst, String, Bool, true, false, not, ◌&&◌, List, [], ◌∷◌,
  all, select, Map, if◌then◌else◌, str_eq, eq_iff, eq_refl, arith, Bool-cases, inl, inr,
}
use envy.Model.{Component}
use envy.Domain.Workload.Graph.{
  Marks, Visit, cycle, out_of_fuel, visited, marked, visit_all, finish, visit, declared,
}
use envy.Domain.Workload.Graph.Fuel.{select-absent}

module _ (components : Map Component) where
  -- Each component comes once, and before those it depends on.
  abbrev pub Ordered : List String → Type 0
  Ordered [] = Unit
  Ordered (id ∷ c) =
      (marked id c ≡ false) × (all (λ d. marked d c) (declared components id) ≡ true) × Ordered c

  -- What a part of the search that returned has done.
  pub record Grown (m n : Marks) : Type 0 where
    pub visiting : n.visiting ≡ m.visiting
    pub kept : (j : String) → marked j m.complete ≡ true → marked j n.complete ≡ true
    pub apart :
        (j : String) → marked j m.visiting ≡ true → marked j n.complete ≡ marked j m.complete
    pub ordered : Ordered m.complete → Ordered n.complete

  pub data Search (P : Marks → Type 0) (m : Marks) : Visit → Type 0 where
    found : Search P m cycle
    spent : Search P m out_of_fuel
    returned : (n : Marks) → Grown m n → P n → Search P m (visited n)

  Grown-refl : (m : Marks) → Grown m m
  Grown-refl m = record { visiting = refl; kept = λ j h. h; apart = λ j h. refl; ordered = λ o. o }

  Grown-trans : (m n k : Marks) → Grown m n → Grown n k → Grown m k
  Grown-trans m n k g h = record {
    visiting = h.visiting ∙ g.visiting;
    kept = λ j x. h.kept j (g.kept j x);
    apart = λ j x. h.apart j (subst (λ v. marked j v ≡ true) (sym g.visiting) x) ∙ g.apart j x;
    ordered = λ o. h.ordered (g.ordered o);
  }

  abbrev pub Covers : List String → Marks → Type 0
  Covers ds n = all (λ d. marked d n.complete) ds ≡ true

  both : {a b : Bool} → a ≡ true → b ≡ true → (a && b) ≡ true
  both {a} {b} p q = ground arith

  pub visit_all-Search :
      (f : String → Marks → Visit)
      → ((d : String) (m : Marks) → Search (λ n. marked d n.complete ≡ true) m (f d m))
      → (ds : List String) (m : Marks) → Search (Covers ds) m (visit_all f ds m)
  visit_all-Search f each [] m = Search.returned m (Grown-refl m) refl
  visit_all-Search f each (d ∷ ds) m = after (f d m) (each d m) (λ n. visit_all-Search f each ds n)
    where
      onward :
          (n : Marks) (r : Visit)
          → Grown m n
          → marked d n.complete ≡ true
          → Search (Covers ds) n r
          → Search (Covers (d ∷ ds)) m r
      onward n cycle g h Search.found = Search.found
      onward n out_of_fuel g h Search.spent = Search.spent
      onward n (visited k) g h (Search.returned _ x c) =
          Search.returned k (Grown-trans m n k g x) (both (x.kept d h) c)

      after :
          (r : Visit)
          → Search (λ n. marked d n.complete ≡ true) m r
          → ((n : Marks) → Search (Covers ds) n (visit_all f ds n))
          → Search
              (Covers (d ∷ ds))
              m
              (elim r [ visited n ↦ visit_all f ds n | cycle ↦ cycle | out_of_fuel ↦ out_of_fuel ])
      after cycle Search.found rest = Search.found
      after out_of_fuel Search.spent rest = Search.spent
      after (visited n) (Search.returned _ g h) rest = onward n _ g h (rest n)

  -- The component joins those that are complete, in front of its dependencies.
  finish-Search :
      (id : String) (m : Marks) (r : Visit)
      → marked id m.visiting ≡ false
      → marked id m.complete ≡ false
      → Search (Covers (declared components id)) (record m { visiting = id ∷ m.visiting }) r
      → Search (λ n. marked id n.complete ≡ true) m (finish id r)
  finish-Search id m cycle u c Search.found = Search.found
  finish-Search id m out_of_fuel u c Search.spent = Search.spent
  finish-Search id m (visited n) u c (Search.returned _ g h) =
      Search.returned _
        (record {
          visiting =
              ap (select (λ j. not (str_eq id j))) g.visiting
              ∙ rw (eq_refl id) (select-absent id m.visiting u);
          kept = λ j x. ground (arith, g.kept j x);
          apart = λ j x. rw (other j x) (g.apart j (ground (arith, x)));
          ordered = λ o. (g.apart id (rw (eq_refl id) refl) ∙ c, h, g.ordered o);
        })
        (rw (eq_refl id) refl)
    where
      other : (j : String) → marked j m.visiting ≡ true → str_eq j id ≡ false
      other j x = elim (Bool-cases (str_eq j id)) [
        | inr d ↦ d
        | inl same ↦ cc (u, x, ap (λ k. marked k m.visiting) ((eq_iff j id).0 same))
      ]

  pub visit-Search :
      (fuel : ℕ) (id : String) (m : Marks)
      → Search (λ n. marked id n.complete ≡ true) m (visit components fuel id m)
  unfolding visit
  visit-Search zero id m = Search.spent
  visit-Search (suc fuel) id m = branch (marked id m.visiting) (marked id m.complete) refl refl (
      visit_all-Search (visit components fuel) (λ d q. visit-Search fuel d q)
        (declared components id) (record m { visiting = id ∷ m.visiting }))
    where
      branch :
          (x y : Bool)
          → marked id m.visiting ≡ x
          → marked id m.complete ≡ y
          → Search
              (Covers (declared components id))
              (record m { visiting = id ∷ m.visiting })
              (visit_all
                (visit components fuel)
                (declared components id)
                (record m { visiting = id ∷ m.visiting }))
          → Search
              (λ n. marked id n.complete ≡ true)
              m
              (if x
                then cycle
                else if y
                then visited m
                else finish id (
                    visit_all
                      (visit components fuel)
                      (declared components id)
                      (record m { visiting = id ∷ m.visiting })))
      branch true y u c s = Search.found
      branch false true u c s = Search.returned m (Grown-refl m) c
      branch false false u c s = finish-Search id m _ u c s
