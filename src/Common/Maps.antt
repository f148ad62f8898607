-- ===== src/Common/Maps.antt =====
-- Go's maps as association lists. A map is ranged over in the order of its list, so that a
-- theorem about every list is about every order in which Go may range.
use Prim.Native.String.{String}
use mathlib.Core.Path.{◌≡◌, refl}
use mathlib.Core.Bool.{Bool, true, false, ◌&&◌}
use mathlib.Core.Option.{Option, none, some}
use mathlib.Core.List.{List, [], ◌∷◌}
use native.Mathlib.Omega.{arith}
use text.Mathlib.Text.{◌==◌ as str_eq}
use text.Mathlib.TextEquality.{eq_iff}
use envy.Common.Tests.{if◌then◌else◌, holds}
use envy.Common.Text.{sort_texts}

abbrev pub Map {ℓ} : Type ℓ → Type ℓ
Map V = List (String × V)

abbrev pub is_some {ℓ} : {A : Type ℓ} → Option A → Bool
is_some none = false
is_some (some _) = true

unfoldable pub Option-discrete {ℓ} : {A : Type ℓ} → Discrete A → Discrete (Option A)
Option-discrete dec = hlevel dec

holds_refl {ℓ} : {A : Type ℓ} (d : Discrete A) (a : A) → holds (d a a) ≡ true
holds_refl d a = decided (d a a)
  where
    decided : (x : Dec (a ≡ a)) → holds x ≡ true
    decided (yes _) = refl
    decided (no n) = elim (n refl) [ ]

module _ {ℓ} {V : Type ℓ} where
  -- `v, ok := m[k]`
  abbrev pub lookup : String → Map V → Option V
  lookup k [] = none
  lookup k ((j, v) ∷ m) = if str_eq j k then some v else lookup k m

  -- `m[k]`, with the zero value for a missing key.
  abbrev pub get_or : V → String → Map V → V
  get_or d k m = elim (lookup k m) [ none ↦ d | some v ↦ v ]

  -- `_, ok := m[k]`
  abbrev pub has_key : String → Map V → Bool
  has_key k m = is_some (lookup k m)

  -- `m[k] = v`
  abbrev pub insert : String → V → Map V → Map V
  insert k v [] = (k, v) ∷ []
  insert k v ((j, w) ∷ m) = if str_eq j k then (k, v) ∷ m else (j, w) ∷ insert k v m

  -- `delete(m, k)`
  abbrev pub delete : String → Map V → Map V
  delete k [] = []
  delete k ((j, w) ∷ m) = let rest = delete k m in if str_eq j k then rest else (j, w) ∷ rest

  abbrev pub keys : Map V → List String
  keys [] = []
  keys ((k, _) ∷ m) = k ∷ keys m

  -- `slices.Sorted(maps.Keys(m))`
  abbrev pub sorted_keys : Map V → List String
  sorted_keys m = sort_texts (keys m)

  -- `maps.Copy(dst, src)`, the destination first. The order of a range is any, so the entries at the
  -- front of the list are written last.
  abbrev pub copy : Map V → Map V → Map V
  copy dst [] = dst
  copy dst ((k, v) ∷ src) = insert k v (copy dst src)

  abbrev agree_on : Discrete V → Map V → Map V → List String → Bool
  agree_on dec a b [] = true
  agree_on dec a b (k ∷ ks) =
      holds (Option-discrete dec (lookup k a) (lookup k b)) && agree_on dec a b ks

  -- `reflect.DeepEqual` of two maps whose keys are distinct.
  abbrev pub maps_equal : Discrete V → Map V → Map V → Bool
  maps_equal dec a b = agree_on dec a b (keys a) && agree_on dec a b (keys b)

  agree_on_refl : (d : Discrete V) (m : Map V) (ks : List String) → agree_on d m m ks ≡ true
  agree_on_refl d m [] = refl
  agree_on_refl d m (k ∷ ks) =
      ground (arith, holds_refl (Option-discrete d) (lookup k m), agree_on_refl d m ks)

  pub maps_equal_refl : (d : Discrete V) (m : Map V) → maps_equal d m m ≡ true
  maps_equal_refl d m = ground (arith, agree_on_refl d m (keys m))

  pub lookup-insert :
      (k j : String) (v : V) (m : Map V)
      → lookup j (insert k v m) ≡ (if str_eq k j then some v else lookup j m)
  lookup-insert k j v [] = refl
  lookup-insert k j v ((i, w) ∷ m) =
      ground (arith, eq_iff k j, eq_iff i k, eq_iff i j, lookup-insert k j v m)

  pub lookup-copy : (j : String) (m : Map V) → lookup j (copy [] m) ≡ lookup j m
  lookup-copy j [] = refl
  lookup-copy j ((k, v) ∷ m) = ground (arith, lookup-insert k j v (copy [] m), lookup-copy j m)

  pub lookup-delete :
      (k j : String) (m : Map V) → lookup j (delete k m) ≡ (if str_eq k j then none else lookup j m)
  lookup-delete k j [] = ground arith
  lookup-delete k j ((i, w) ∷ m) =
      ground (arith, eq_iff k j, eq_iff i k, eq_iff i j, lookup-delete k j m)
