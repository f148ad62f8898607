-- ===== src/Reconciler/Snapshot/Sorted.antt =====
-- internal/reconciler/reconciler.go: `Snapshot` sorts the compositions, and sorting neither adds nor
-- drops one.
use envy.Common.{Bool, true, false, List, [], ◌∷◌, if◌then◌else◌, insert_by, sort_by}
use mathlib.Core.List.{Memᴰ}

module _ {A : Type 0} (le : A → A → Bool) where
  Memᴰ-insert_by : (y a : A) (l : List A) → Memᴰ y (insert_by le a l) → Memᴰ y (a ∷ l)
  Memᴰ-insert_by y a [] m = m
  Memᴰ-insert_by y a (x ∷ xs) m = branch (le a x) (Memᴰ-insert_by y a xs) m
    where
      later :
          (Memᴰ y (insert_by le a xs) → Memᴰ y (a ∷ xs))
          → Memᴰ y (x ∷ insert_by le a xs)
          → Memᴰ y (a ∷ x ∷ xs)
      later ih (Memᴰ.head e) = Memᴰ.tail (Memᴰ.head e)
      later ih (Memᴰ.tail k) = elim (ih k) [
        | Memᴰ.head e ↦ Memᴰ.head e
        | Memᴰ.tail t ↦ Memᴰ.tail (Memᴰ.tail t)
      ]

      branch :
          (b : Bool)
          → (Memᴰ y (insert_by le a xs) → Memᴰ y (a ∷ xs))
          → Memᴰ y (if b then a ∷ x ∷ xs else x ∷ insert_by le a xs)
          → Memᴰ y (a ∷ x ∷ xs)
      branch true ih k = k
      branch false ih k = later ih k

  pub Memᴰ-sort_by : (y : A) (l : List A) → Memᴰ y (sort_by le l) → Memᴰ y l
  Memᴰ-sort_by y [] m = m
  Memᴰ-sort_by y (x ∷ xs) m = elim (Memᴰ-insert_by y x (sort_by le xs) m) [
    | Memᴰ.head e ↦ Memᴰ.head e
    | Memᴰ.tail k ↦ Memᴰ.tail (Memᴰ-sort_by y xs k)
  ]

  insert_by-Memᴰ : (y a : A) (l : List A) → Memᴰ y (a ∷ l) → Memᴰ y (insert_by le a l)
  insert_by-Memᴰ y a [] m = m
  insert_by-Memᴰ y a (x ∷ xs) m = branch (le a x) (insert_by-Memᴰ y a xs)
    where
      later :
          (Memᴰ y (a ∷ xs) → Memᴰ y (insert_by le a xs))
          → Memᴰ y (a ∷ x ∷ xs)
          → Memᴰ y (x ∷ insert_by le a xs)
      later ih (Memᴰ.head e) = Memᴰ.tail (ih (Memᴰ.head e))
      later ih (Memᴰ.tail (Memᴰ.head e)) = Memᴰ.head e
      later ih (Memᴰ.tail (Memᴰ.tail k)) = Memᴰ.tail (ih (Memᴰ.tail k))

      branch :
          (b : Bool)
          → (Memᴰ y (a ∷ xs) → Memᴰ y (insert_by le a xs))
          → Memᴰ y (if b then a ∷ x ∷ xs else x ∷ insert_by le a xs)
      branch true ih = m
      branch false ih = later ih m

  pub sort_by-Memᴰ : (y : A) (l : List A) → Memᴰ y l → Memᴰ y (sort_by le l)
  sort_by-Memᴰ y [] m = m
  sort_by-Memᴰ y (x ∷ xs) (Memᴰ.head e) = insert_by-Memᴰ y x _ (Memᴰ.head e)
  sort_by-Memᴰ y (x ∷ xs) (Memᴰ.tail k) = insert_by-Memᴰ y x _ (Memᴰ.tail (sort_by-Memᴰ y xs k))
