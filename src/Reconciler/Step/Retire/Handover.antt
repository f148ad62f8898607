-- ===== src/Reconciler/Step/Retire/Handover.antt =====
-- internal/reconciler/reconciler.go: what becomes of the workloads when the selection of a
-- composition takes the place of the published one.
use envy.Common.{
  ◌≡◌, ◌∙◌, refl, ap, sym, subst, String, Bool, true, false, none, some, [], ◌∷◌, if◌then◌else◌,
  str_eq, eq_iff, arith, Map, lookup, has_key, insert, delete, lookup-insert, lookup-delete,
  maps_equal_refl, Bool-cases, eq_refl, inl, inr, ◌||◌,
}
use envy.Model.{Composition, ComponentOverride, ComponentOverride-discrete, WorkloadRef}
use envy.Domain.Catalog.{workload_for, no_workload}
use envy.Reconciler.Step.Retire.{
  adopt_selection, retire_component, retire_components, retire_published, set_published, is_current,
  overrides_equal,
}

-- No key comes twice.
abbrev pub Distinct : {A : Type 0} → Map A → Type 0
Distinct [] = Unit
Distinct ((k, _) ∷ m) = (lookup k m ≡ none) × Distinct m

-- The places of a component among the workloads are as they were.
pub record Unmoved (k : String) (c d : Composition) : Type 0 where
  pub workload : lookup k d.runtime.workloads ≡ lookup k c.runtime.workloads
  pub retiring : lookup k d.runtime.retiring_workloads ≡ lookup k c.runtime.retiring_workloads

-- The workload of a component retires.
pub record Moved (k : String) (c d : Composition) : Type 0 where
  pub workload : lookup k d.runtime.workloads ≡ none
  pub retiring : lookup k d.runtime.retiring_workloads ≡ some (workload_for c.runtime k)

retire_component-Unmoved :
    (j k : String) (c : Composition) → str_eq j k ≡ false → Unmoved k c (retire_component j c)
unfolding retire_component
retire_component-Unmoved j k c apart = branch (has_key j c.overrides) (str_eq ref.namespace "")
  where
    ref : WorkloadRef
    ref = workload_for c.runtime j

    branch :
        (x y : Bool)
        → Unmoved k c (
            if x then c else if y then c else record c {
              runtime = record (c.runtime) {
                retiring_workloads =
                    insert j (workload_for c.runtime j) c.runtime.retiring_workloads;
                workloads = delete j c.runtime.workloads;
              };
            })
    branch true y = record { workload = refl; retiring = refl }
    branch false true = record { workload = refl; retiring = refl }
    branch false false = record {
      workload = rw apart at (lookup-delete j k c.runtime.workloads);
      retiring =
          rw apart at (lookup-insert j k (workload_for c.runtime j) c.runtime.retiring_workloads);
    }

-- The loop changes nothing else that it reads.
record Same (c d : Composition) : Type 0 where
  overrides : d.overrides ≡ c.overrides
  legacy : d.runtime.workload ≡ c.runtime.workload

retire_component-Same : (j : String) (c : Composition) → Same c (retire_component j c)
unfolding retire_component
retire_component-Same j c =
    branch (has_key j c.overrides) (str_eq (workload_for c.runtime j).namespace "")
  where
    branch :
        (x y : Bool)
        → Same c (
            if x then c else if y then c else record c {
              runtime = record (c.runtime) {
                retiring_workloads =
                    insert j (workload_for c.runtime j) c.runtime.retiring_workloads;
                workloads = delete j c.runtime.workloads;
              };
            })
    branch true y = record { overrides = refl; legacy = refl }
    branch false true = record { overrides = refl; legacy = refl }
    branch false false = record { overrides = refl; legacy = refl }

retire_component-Moved :
    (k : String) (c : Composition)
    → has_key k c.overrides ≡ false
    → str_eq (workload_for c.runtime k).namespace "" ≡ false
    → Moved k c (retire_component k c)
unfolding retire_component
retire_component-Moved k c undesired placed = rw undesired (
    rw placed (record {
      workload = rw (eq_refl k) at (lookup-delete k k c.runtime.workloads);
      retiring =
          rw (eq_refl k) at
            (lookup-insert k k (workload_for c.runtime k) c.runtime.retiring_workloads);
    }))

workload_for-Unmoved :
    (k : String) (c d : Composition)
    → Unmoved k c d
    → Same c d
    → workload_for d.runtime k ≡ workload_for c.runtime k
unfolding workload_for
workload_for-Unmoved k c d u s = λ i. elim (u.workload i) [
  | some ref ↦ ref
  | none ↦
      if str_eq (s.legacy i).deployment k || str_eq (s.legacy i).service k
      then s.legacy i
      else no_workload
]

Unmoved-trans : (k : String) (c d e : Composition) → Unmoved k c d → Unmoved k d e → Unmoved k c e
Unmoved-trans k c d e u v = record {
  workload = v.workload ∙ u.workload;
  retiring = v.retiring ∙ u.retiring;
}

-- A component that is not published is left alone.
retire_components-Unmoved :
    (k : String) (m : Map ComponentOverride) (c : Composition)
    → lookup k m ≡ none
    → Unmoved k c (retire_components m c)
retire_components-Unmoved k [] c h = record { workload = refl; retiring = refl }
retire_components-Unmoved k ((j, v) ∷ m) c h =
    Unmoved-trans k c _ _ (retire_component-Unmoved j k c (ground arith))
      (retire_components-Unmoved k m _ (ground arith))

-- A component that is still desired is left alone.
retire_component-desired :
    (j k : String) (c : Composition)
    → has_key k c.overrides ≡ true
    → Unmoved k c (retire_component j c)
unfolding retire_component
retire_component-desired j k c desired = elim (Bool-cases (str_eq j k)) [
  | inr apart ↦ retire_component-Unmoved j k c apart
  | inl same ↦
      subst (λ x. Unmoved k c (retire_component x c)) (sym ((eq_iff j k).0 same))
        (rw desired (record { workload = refl; retiring = refl }))
]

retire_components-desired :
    (k : String) (m : Map ComponentOverride) (c : Composition)
    → has_key k c.overrides ≡ true
    → Unmoved k c (retire_components m c)
retire_components-desired k [] c h = record { workload = refl; retiring = refl }
retire_components-desired k ((j, v) ∷ m) c h =
    Unmoved-trans k c _ _ (retire_component-desired j k c h)
      (retire_components-desired k m _ (ap (has_key k) ((retire_component-Same j c).overrides) ∙ h))

retire_components-Moved :
    (k : String) (m : Map ComponentOverride) (c : Composition)
    → Distinct m
    → has_key k m ≡ true
    → has_key k c.overrides ≡ false
    → str_eq (workload_for c.runtime k).namespace "" ≡ false
    → Moved k c (retire_components m c)
retire_components-Moved k [] c d h undesired placed = cc
retire_components-Moved k ((j, v) ∷ m) c (fresh, d) h undesired placed =
    elim (Bool-cases (str_eq j k)) [
      | inl same ↦
          let e = (eq_iff j k).0 same in
          let first =
            subst (λ x. Moved k c (retire_component x c)) (sym e)
              (retire_component-Moved k c undesired placed) in
          let rest =
            retire_components-Unmoved k m (retire_component j c)
              (subst (λ x. lookup x m ≡ none) e fresh) in
          record {
            workload = rest.workload ∙ first.workload;
            retiring = rest.retiring ∙ first.retiring;
          }
      | inr apart ↦
          let u = retire_component-Unmoved j k c apart in
          let s = retire_component-Same j c in
          let w = workload_for-Unmoved k c _ u s in
          let rest =
            retire_components-Moved k m (retire_component j c) d (ground arith)
              (ap (has_key k) s.overrides ∙ undesired)
              (ap (λ r. str_eq r.namespace "") w ∙ placed) in
          record { workload = rest.workload; retiring = rest.retiring ∙ ap some w }
    ]

-- A component that was not placed in a namespace is left alone.
retire_component-unplaced :
    (k : String) (c : Composition)
    → str_eq (workload_for c.runtime k).namespace "" ≡ true
    → Unmoved k c (retire_component k c)
unfolding retire_component
retire_component-unplaced k c unplaced = elim (Bool-cases (has_key k c.overrides)) [
  | inl desired ↦ rw desired (record { workload = refl; retiring = refl })
  | inr undesired ↦ rw undesired (rw unplaced (record { workload = refl; retiring = refl }))
]

retire_components-unplaced :
    (k : String) (m : Map ComponentOverride) (c : Composition)
    → str_eq (workload_for c.runtime k).namespace "" ≡ true
    → Unmoved k c (retire_components m c)
retire_components-unplaced k [] c h = record { workload = refl; retiring = refl }
retire_components-unplaced k ((j, v) ∷ m) c h = Unmoved-trans k c _ _ first (
    retire_components-unplaced k m _ (
      ap (λ r. str_eq r.namespace "") (workload_for-Unmoved k c _ first (retire_component-Same j c))
      ∙ h))
  where
    first : Unmoved k c (retire_component j c)
    first = elim (Bool-cases (str_eq j k)) [
      | inr apart ↦ retire_component-Unmoved j k c apart
      | inl same ↦
          subst (λ x. Unmoved k c (retire_component x c)) (sym ((eq_iff j k).0 same))
            (retire_component-unplaced k c h)
    ]

-- What the handover does about a component, `m` being what was published: nothing if it is desired,
-- was not published or has no namespace, and else its workload is moved to those that retire.
pub data Handover (k : String) (m : Map ComponentOverride) (c d : Composition) : Type 0 where
  desired : has_key k c.overrides ≡ true → Unmoved k c d → Handover k m c d
  unpublished : has_key k m ≡ false → Unmoved k c d → Handover k m c d
  unplaced : (workload_for c.runtime k).namespace ≡ "" → Unmoved k c d → Handover k m c d
  retired : has_key k m ≡ true → has_key k c.overrides ≡ false → Moved k c d → Handover k m c d

retire_components-overrides :
    (m : Map ComponentOverride) (c : Composition) → (retire_components m c).overrides ≡ c.overrides
retire_components-overrides [] c = refl
retire_components-overrides ((j, v) ∷ m) c =
    retire_components-overrides m _ ∙ (retire_component-Same j c).overrides

set_published-current : (c : Composition) → is_current (set_published c) ≡ true
unfolding overrides_equal
set_published-current c = maps_equal_refl ComponentOverride-discrete c.overrides

set_published-Handover :
    (k : String) (m : Map ComponentOverride) (c d : Composition)
    → Handover k m c d
    → Handover k m c (set_published d)
set_published-Handover k m c d (Handover.desired h u) =
    Handover.desired h (record { workload = u.workload; retiring = u.retiring })
set_published-Handover k m c d (Handover.unpublished h u) =
    Handover.unpublished h (record { workload = u.workload; retiring = u.retiring })
set_published-Handover k m c d (Handover.unplaced h u) =
    Handover.unplaced h (record { workload = u.workload; retiring = u.retiring })
set_published-Handover k m c d (Handover.retired h g u) =
    Handover.retired h g (record { workload = u.workload; retiring = u.retiring })

retire_components-Handover :
    (k : String) (m : Map ComponentOverride) (c : Composition)
    → Distinct m
    → Handover k m c (retire_components m c)
retire_components-Handover k m c distinct = elim (Bool-cases (has_key k c.overrides)) [
  | inl h ↦ Handover.desired h (retire_components-desired k m c h)
  | inr undesired ↦ elim (Bool-cases (has_key k m)) [
    | inr h ↦ Handover.unpublished h (retire_components-Unmoved k m c (ground arith))
    | inl h ↦ elim (Bool-cases (str_eq (workload_for c.runtime k).namespace "")) [
      | inl nowhere ↦
          Handover.unplaced ((eq_iff _ _).0 nowhere) (retire_components-unplaced k m c nowhere)
      | inr placed ↦
          Handover.retired h undesired (retire_components-Moved k m c distinct h undesired placed)
    ]
  ]
]

-- After the handover the desired selection is the published one. The workload of a component stays
-- as it was if the component is desired, was not published or has no namespace; else it is moved to
-- those that retire, so that none is lost. The hypothesis is that no component is published twice.
pub adopt_selection-Handover :
    (k : String) (m : Map ComponentOverride) (c : Composition)
    → c.runtime.published_overrides ≡ some m
    → Distinct m
    → (is_current (adopt_selection c) ≡ true) × Handover k m c (adopt_selection c)
unfolding adopt_selection
adopt_selection-Handover k m c published distinct = (
  set_published-current (retire_published c.runtime.published_overrides c),
  subst (λ o. Handover k m c (set_published (retire_published o c))) (sym published)
      (set_published-Handover k m c _ (retire_components-Handover k m c distinct)),
)
