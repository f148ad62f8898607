-- ===== src/Domain/Workload/Graph/Fuel.antt =====
-- internal/domain/workload.go: the search of `ValidateExecutionGraph` ends. Each call inside another
-- marks one more of the components as being visited, so that the fuel is enough.
use envy.Common.{
  ℕ, zero, suc, ◌≤◌, ◌<◌, ◌≡◌, ◌≢◌, ◌∙◌, refl, ap, sym, subst, String, Bool, true, false, not, none,
  List, [], ◌∷◌, any, select, length, Map, lookup, keys, if◌then◌else◌, str_eq, eq_iff, eq_refl,
  arith, Bool-cases, inl, inr, ◌⊎◌,
}
use envy.Model.{Component}
use envy.Domain.Workload.Graph.{
  Marks, Visit, cycle, out_of_fuel, visited, marked, visit_all, finish, visit, search_cycles,
  declared,
}

-- How many of the components are not being visited.
abbrev idle : List String → List String → ℕ
idle [] v = 0
idle (k ∷ ks) v = let rest = idle ks v in if marked k v then rest else suc rest

-- The search came to an end, and what is being visited is as it was.
data Ends (m : Marks) : Visit → Type 0 where
  found : Ends m cycle
  returned : (m' : Marks) → m'.visiting ≡ m.visiting → Ends m (visited m')

idle-shrinks : (ks v : List String) (id : String) → idle ks (id ∷ v) ≤ idle ks v
idle-shrinks [] v id = omega arith
idle-shrinks (k ∷ ks) v id = ground (arith, idle-shrinks ks v id)

idle-drops :
    (ks v : List String) (id : String)
    → any (str_eq id) ks ≡ true
    → marked id v ≡ false
    → idle ks (id ∷ v) < idle ks v
idle-drops [] v id h u = cc
idle-drops (k ∷ ks) v id h u = elim (Bool-cases (str_eq id k)) [
  | inl same ↦ here ((eq_iff id k).0 same)
  | inr apart ↦ ground (arith, idle-drops ks v id (ground arith) u)
]
  where
    here : id ≡ k → idle (k ∷ ks) (id ∷ v) < idle (k ∷ ks) v
    here e =
        subst (λ x. idle (x ∷ ks) (id ∷ v) < idle (x ∷ ks) v) e
          (rw (eq_refl id) (rw u (omega (arith, idle-shrinks ks v id))))

lookup-keys :
    (m : Map Component) (id : String) → (lookup id m ≡ none) ⊎ (any (str_eq id) (keys m) ≡ true)
lookup-keys [] id = inl refl
lookup-keys ((k, c) ∷ m) id = elim (Bool-cases (str_eq k id)) [
  | inl same ↦ inr (rw ((eq_iff id k).1 (sym ((eq_iff k id).0 same))) refl)
  | inr apart ↦ elim (lookup-keys m id) [
    | inl missing ↦ inl (rw apart missing)
    | inr known ↦ inr (ground (arith, known))
  ]
]

-- A component that declares dependencies is one of the components.
pub declared-keys :
    (m : Map Component) (id : String) → (declared m id ≡ []) ⊎ (any (str_eq id) (keys m) ≡ true)
declared-keys m id = elim (lookup-keys m id) [
  | inl missing ↦ inl (rw (declared, missing) refl)
  | inr known ↦ inr known
]

-- Visiting each of a list ends, if visiting one does while `v` is being visited.
visit_all-Ends :
    (f : String → Marks → Visit) (v : List String)
    → ((d : String) (m : Marks) → m.visiting ≡ v → Ends m (f d m))
    → (ds : List String) (m : Marks) → m.visiting ≡ v
    → Ends m (visit_all f ds m)
visit_all-Ends f v each [] m e = Ends.returned m refl
visit_all-Ends f v each (d ∷ ds) m e =
    after (f d m) (each d m e) (λ n q. visit_all-Ends f v each ds n (q ∙ e))
  where
    after :
        (r : Visit)
        → Ends m r
        → ((n : Marks) → n.visiting ≡ m.visiting → Ends n (visit_all f ds n))
        → Ends m
            (elim r [ visited n ↦ visit_all f ds n | cycle ↦ cycle | out_of_fuel ↦ out_of_fuel ])
    after cycle Ends.found rest = Ends.found
    after out_of_fuel x rest = elim x [ ]
    after (visited n) (Ends.returned _ q) rest = onward (visit_all f ds n) (rest n q)
      where
        onward : (r : Visit) → Ends n r → Ends m r
        onward cycle Ends.found = Ends.found
        onward out_of_fuel x = elim x [ ]
        onward (visited k) (Ends.returned _ p) = Ends.returned k (p ∙ q)

pub select-absent :
    (id : String) (v : List String) → marked id v ≡ false → select (λ j. not (str_eq id j)) v ≡ v
select-absent id [] h = refl
select-absent id (j ∷ v) h = ground (arith, select-absent id v (ground arith))

-- Once its dependencies are visited, a component is not being visited any more.
finish-Ends :
    (id : String) (m : Marks) (r : Visit)
    → marked id m.visiting ≡ false
    → Ends (record m { visiting = id ∷ m.visiting }) r
    → Ends m (finish id r)
finish-Ends id m cycle u Ends.found = Ends.found
finish-Ends id m out_of_fuel u x = elim x [ ]
finish-Ends id m (visited n) u (Ends.returned _ q) =
    Ends.returned _
      (ap (select (λ j. not (str_eq id j))) q ∙ rw (eq_refl id) (select-absent id m.visiting u))

module _ (components : Map Component) where
  visit-Ends :
      (fuel : ℕ) (id : String) (m : Marks)
      → idle (keys components) m.visiting < fuel
      → Ends m (visit components fuel id m)
  unfolding visit
  visit-Ends zero id m few = elim (none_below few) [ ]
    where
      none_below : {n : ℕ} → n < 0 → ⊥
      none_below h = omega arith
  visit-Ends (suc fuel) id m few =
      branch (marked id m.visiting) (marked id m.complete) refl (λ n q h. visit-Ends fuel n q h)
    where
      inner : Marks
      inner = record m { visiting = id ∷ m.visiting }

      below :
          marked id m.visiting ≡ false
          → ((n : String) (q : Marks)
              → idle (keys components) q.visiting < fuel
              → Ends q (visit components fuel n q))
          → Ends inner (visit_all (visit components fuel) (declared components id) inner)
      below fresh ih = elim (declared-keys components id) [
        | inl childless ↦
            subst (λ ds. Ends inner (visit_all (visit components fuel) ds inner)) (sym childless)
              (Ends.returned inner refl)
        | inr known ↦
            visit_all-Ends (visit components fuel) (id ∷ m.visiting)
              (λ d q e. ih d q (
                subst (λ v. idle (keys components) v < fuel) (sym e)
                  (omega (arith, few, idle-drops (keys components) m.visiting id known fresh))))
              (declared components id) inner refl
      ]

      branch :
          (x y : Bool)
          → marked id m.visiting ≡ x
          → ((n : String) (q : Marks)
              → idle (keys components) q.visiting < fuel
              → Ends q (visit components fuel n q))
          → Ends m (
              if x
              then cycle
              else if y
              then visited m
              else finish id (
                  visit_all
                    (visit components fuel)
                    (declared components id)
                    (record m { visiting = id ∷ m.visiting })))
      branch true y e ih = Ends.found
      branch false true e ih = Ends.returned m refl
      branch false false e ih = finish-Ends id m _ e (below e ih)

  idle-all : (ks : List String) → idle ks [] ≡ length ks
  idle-all [] = refl
  idle-all (k ∷ ks) = ap suc (idle-all ks)

  Ends-result : (m : Marks) (r : Visit) → Ends m r → r ≢ out_of_fuel
  Ends-result m cycle Ends.found e = cc
  Ends-result m out_of_fuel x e = elim x [ ]
  Ends-result m (visited n) (Ends.returned _ _) e = cc

  -- The search for cycles ends with a cycle or with all components visited: it never runs out of
  -- fuel, whatever the components declare.
  pub search_cycles-ends : search_cycles components ≢ out_of_fuel
  unfolding search_cycles
  search_cycles-ends = Ends-result _ _ (
      visit_all-Ends _ []
        (λ d m e. visit-Ends (suc (length (keys components))) d m (
          subst (λ v. idle (keys components) v < suc (length (keys components))) (sym e)
            (omega (arith, idle-all (keys components)))))
        (keys components) (record { visiting = []; complete = [] }) refl)
