-- ===== src/Common/Text.antt =====
-- Texts: the functions of Go's `strings` that the program calls. A text that is walked is its
-- list of codes.
use Prim.Native.Nat.{ℕ}
use Prim.Native.String.{String, ◌++◌ as ◌<>◌, compare as compare_text, len}
use Prim.Native.Char.{code}
use mathlib.Core.Path.{◌≡◌, refl}
use mathlib.Core.Bool.{Bool, true, false}
use mathlib.Core.List.{List, [], ◌∷◌}
use text.Mathlib.Text.{◌==◌ as str_eq, is_le, starts_with, find?}
use text.Mathlib.TextEquality.{eq_iff}
use text.Mathlib.TextPositions.{eq_refl}
use mathlib.Core.Option.{none, some}
use envy.Common.Lists.{sort_by}
pub use Prim.Native.String.{◌++◌ as ◌<>◌, len}
pub use text.Mathlib.Text.{◌==◌ as str_eq, starts_with}
pub use text.Mathlib.TextEquality.{eq_iff}
pub use text.Mathlib.TextPositions.{eq_refl}

unfoldable pub String-discrete : Discrete String
String-discrete s t = decide (str_eq s t) refl
  where
    decide : (b : Bool) → str_eq s t ≡ b → Dec (s ≡ t)
    decide true e = yes ((eq_iff s t).0 e)
    decide false e = no (λ p. cc (e, (eq_iff s t).1 p))

abbrev pub codes : String → List ℕ
codes String.[] = []
codes (String.◌∷◌ c s) = code c ∷ codes s

-- `strings.Contains`.
abbrev pub contains_text : String → String → Bool
contains_text s t = elim (find? s t) [ none ↦ false | some _ ↦ true ]

abbrev pub text_le : String → String → Bool
text_le s t = is_le (compare_text s t)

-- `sort.Strings`.
abbrev pub sort_texts : List String → List String
sort_texts = sort_by text_le

-- `strings.Join`.
abbrev pub join : String → List String → String
join sep [] = ""
join sep (x ∷ xs) = elim xs [ [] ↦ x | _ ∷ _ ↦ x <> (sep <> join sep xs) ]
