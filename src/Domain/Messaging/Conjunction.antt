-- ===== src/Domain/Messaging/Conjunction.antt =====
-- internal/domain/messaging.go: a business filter that `balancedFilter` accepts cannot escape the
-- conjunction with the filter that isolates a composition.
use text.Mathlib.TextLemmas.{cons-append, nil-append}
use Prim.Native.Char.{code}
use envy.Common.{
  ℕ, zero, suc, ◌+◌, ◌-◌, ◌≡◌, ◌∙◌, refl, ap, Bool, true, false, not, List, [], ◌∷◌, ◌++◌,
  if◌then◌else◌, ◌==◌, arith, String, codes, ◌<>◌, str_eq, eq_iff, ◌≢◌, Bool-cases, inl, inr,
}
use envy.Domain.Messaging.Filter.{scan_filter, balanced_filter, message_filter}

closed : (k : ℕ) → scan_filter k false false [] ≡ true → k ≡ 0
closed k h = ground arith

deeper :
    (k d : ℕ) (l : List ℕ)
    → scan_filter (k + d + 1) false false l ≡ scan_filter (k + 1 + d) false false l
deeper k d l = ap (λ n. scan_filter n false false l) (omega arith)

unescaped : (r : ℕ) → (r == b'"') ≡ true → (r == b'\\') ≡ false
unescaped r h = ground arith

shallow :
    (k d : ℕ) (rs ys : List ℕ)
    → (if k == 0 then false else scan_filter (k - 1) false false rs) ≡ true
    → (scan_filter (k - 1) false false rs ≡ true
        → scan_filter (k - 1 + d) false false (rs ++ ys) ≡ scan_filter d false false ys)
    → (if k + d == 0 then false else scan_filter (k + d - 1) false false (rs ++ ys))
      ≡ scan_filter d false false ys
shallow zero d rs ys h ih = cc
shallow (suc k) d rs ys h ih =
    rw (positive k d)
      (ap (λ n. scan_filter n false false (rs ++ ys)) (omega arith) ∙ ih (rw (nonzero k) at h))
  where
    nonzero : (k : ℕ) → (suc k == 0) ≡ false
    nonzero k = ground arith

    positive : (k d : ℕ) → (suc k + d == 0) ≡ false
    positive k d = ground arith

-- The next code of a quoted part: it ends the quotation, or the part goes on.
turned :
    (k d : ℕ) (x y : Bool) (rs ys : List ℕ)
    → (x ≡ true → y ≡ false)
    → scan_filter k (not x) y rs ≡ true
    → (scan_filter k false false rs ≡ true
        → scan_filter (k + d) false false (rs ++ ys) ≡ scan_filter d false false ys)
    → ((e : Bool)
        → scan_filter k true e rs ≡ true
        → scan_filter (k + d) true e (rs ++ ys) ≡ scan_filter d false false ys)
    → scan_filter (k + d) (not x) y (rs ++ ys) ≡ scan_filter d false false ys
turned k d false y rs ys apart h ended on = on y h
turned k d true false rs ys apart h ended on = ended h
turned k d true true rs ys apart h ended on = cc (apart refl)

mutual
  -- A run that ends closed and unquoted does the same below a greater depth, and leaves the rest.
  scan_filter-append :
      (k d : ℕ) (xs ys : List ℕ)
      → scan_filter k false false xs ≡ true
      → scan_filter (k + d) false false (xs ++ ys) ≡ scan_filter d false false ys
  scan_filter-append k d [] ys h =
      ap (λ n. scan_filter n false false ys) (omega (arith, closed k h))
  scan_filter-append k d (r ∷ rs) ys h = elim (Bool-cases (r == b'"')) [
    | inl quote ↦ rw quote (quoted-append k d false rs ys (rw quote at h))
    | inr plain ↦ rw plain (elim (Bool-cases (r == b'(')) [
      | inl opening ↦ rw opening (
          deeper k d (rs ++ ys)
          ∙ scan_filter-append (k + 1) d rs ys (rw opening at (rw plain at h)))
      | inr level ↦ rw level (elim (Bool-cases (r == b')')) [
        | inl closing ↦ rw closing (
            shallow k d rs ys (rw closing at (rw level at (rw plain at h)))
              (scan_filter-append (k - 1) d rs ys))
        | inr other ↦
            rw other (scan_filter-append k d rs ys (rw other at (rw level at (rw plain at h))))
      ])
    ])
  ]

  quoted-append :
      (k d : ℕ) (e : Bool) (xs ys : List ℕ)
      → scan_filter k true e xs ≡ true
      → scan_filter (k + d) true e (xs ++ ys) ≡ scan_filter d false false ys
  quoted-append k d e [] ys h = ground arith
  quoted-append k d true (r ∷ rs) ys h = quoted-append k d false rs ys h
  quoted-append k d false (r ∷ rs) ys h =
      turned k d (r == b'"') (r == b'\\') rs ys (unescaped r) h (scan_filter-append k d rs ys)
        (λ e. quoted-append k d e rs ys)

codes-append : (s t : String) → codes (s <> t) ≡ codes s ++ codes t
codes-append String.[] t = ap codes (nil-append t)
codes-append (String.◌∷◌ c s) t =
    ap codes (cons-append c s t) ∙ ap (λ x. code c ∷ x) (codes-append s t)

-- Inside one parenthesis, a part ends at the level at which it began and outside a quotation: it
-- closes nothing around it and leaves nothing open, whatever follows.
pub IsEnclosed : List ℕ → Type 0
IsEnclosed part =
    (rest : List ℕ) → scan_filter 1 false false (part ++ rest) ≡ scan_filter 1 false false rest

-- The filter of a subscription: the isolating one alone, or both, each in parentheses of its own.
pub data IsConjunction (base business : String) (filter : List ℕ) : Type 0 where
  alone : business ≡ "" → filter ≡ codes base → IsConjunction base business filter
  joined :
      business ≢ ""
      → filter ≡ b'(' ∷ (codes base ++ (codes ") AND (" ++ (codes business ++ (b')' ∷ []))))
      → IsEnclosed (codes base)
      → IsEnclosed (codes business)
      → IsConjunction base business filter

joined-codes :
    (base business : String)
    → codes ("(" <> (base <> (") AND (" <> (business <> ")"))))
      ≡ b'(' ∷ (codes base ++ (codes ") AND (" ++ (codes business ++ (b')' ∷ []))))
joined-codes base business =
    codes-append "(" (base <> (") AND (" <> (business <> ")")))
    ∙ ap (λ x. b'(' ∷ x)
        (codes-append base (") AND (" <> (business <> ")"))
          ∙ ap (λ x. codes base ++ x)
              (codes-append ") AND (" (business <> ")")
                ∙ ap (λ x. codes ") AND (" ++ x) (codes-append business ")")))

balanced-IsEnclosed :
    (part : String) → balanced_filter (codes part) ≡ true → IsEnclosed (codes part)
unfolding balanced_filter IsEnclosed
balanced-IsEnclosed part h rest = scan_filter-append 0 1 (codes part) rest h

-- Two balanced filters compose to a balanced one. It is the isolating filter alone where there is no
-- business filter, and else both, each in parentheses of its own and joined by AND; neither closes
-- the parenthesis around it or leaves a quotation or one more parenthesis open, whatever follows.
pub message_filter-balanced :
    (base business : String)
    → balanced_filter (codes base) ≡ true
    → balanced_filter (codes business) ≡ true
    → (balanced_filter (codes (message_filter base business)) ≡ true)
      × IsConjunction base business (codes (message_filter base business))
unfolding message_filter balanced_filter IsEnclosed
message_filter-balanced base business h k = elim (Bool-cases (str_eq business "")) [
  | inl empty ↦ rw empty (h, alone ((eq_iff business "").0 empty) refl)
  | inr filled ↦
      let encloses = balanced-IsEnclosed base h in
      let enclosed = balanced-IsEnclosed business k in
      let same = joined-codes base business in
      rw filled (
        ap (scan_filter 0 false false) same
            ∙ encloses (codes ") AND (" ++ (codes business ++ (b')' ∷ [])))
            ∙ enclosed (b')' ∷ []),
        joined (λ e. cc (filled, (eq_iff business "").1 e)) same encloses enclosed,
      )
]
