-- ===== src/Domain/Catalog/Labels.antt =====
-- internal/domain/catalog.go: which texts `ValidCatalogID` accepts.
use envy.Common.{
  ℕ, suc, ◌≤◌, ◌≡◌, ◌↔◌, refl, Bool, true, ◌&&◌, ◌||◌, String, codes, List, [], ◌∷◌, all, length,
  leb, arith, ap, sym, subst, ◌∙◌, &&-split, leb→le,
}
use envy.Domain.Catalog.{is_lower, is_digit, id_tail, id_matches, valid_catalog_id}

-- A character of an identifier.
abbrev pub is_label : ℕ → Bool
is_label c = is_lower c || is_digit c || leb c b'-' && leb b'-' c

abbrev pub ends_well : ℕ → List ℕ → Bool
ends_well c [] = is_lower c || is_digit c
ends_well c (d ∷ rest) = ends_well d rest

-- A DNS label that starts with a letter: at most 63 characters of those allowed, of which the first
-- is a letter and the last is no hyphen.
pub record IsLabel (text : List ℕ) : Type 0 where
  pub first : ℕ
  pub rest : List ℕ
  pub split : text ≡ first ∷ rest
  pub letter : is_lower first ≡ true
  pub allowed : all is_label text ≡ true
  pub last : ends_well first rest ≡ true
  pub short : length text ≤ 63

id_tail-labels :
    (c : ℕ) (l : List ℕ)
    → id_tail (c ∷ l) ≡ true
    → (all is_label (c ∷ l) ≡ true) × (ends_well c l ≡ true)
id_tail-labels c [] h = (ground arith, h)
id_tail-labels c (d ∷ l) h =
    let (here, later) = &&-split _ _ h in let (a, e) = id_tail-labels d l later in (both here a, e)
  where
    both : {a b : Bool} → a ≡ true → b ≡ true → (a && b) ≡ true
    both {a} {b} p q = ground arith

id_tail-accepts :
    (c : ℕ) (l : List ℕ)
    → all is_label (c ∷ l) ≡ true
    → ends_well c l ≡ true
    → id_tail (c ∷ l) ≡ true
id_tail-accepts c [] a e = e
id_tail-accepts c (d ∷ l) a e =
    let (here, later) = &&-split _ _ a in both here (id_tail-accepts d l later e)
  where
    both : {a b : Bool} → a ≡ true → b ≡ true → (a && b) ≡ true
    both {a} {b} p q = ground arith

pub id_matches-IsLabel : (text : List ℕ) → id_matches text ≡ true → IsLabel text
unfolding id_matches
id_matches-IsLabel [] h = cc
id_matches-IsLabel (c ∷ []) h = record {
  first = c;
  rest = [];
  split = refl;
  letter = ground arith;
  allowed = ground arith;
  last = ground arith;
  short = omega arith;
}
id_matches-IsLabel (c ∷ d ∷ l) h =
    let (letter, more) = &&-split (is_lower c) (id_tail (d ∷ l) && leb (length (d ∷ l)) 62) h in
    let (tail, few) = &&-split _ _ more in
    let (allowed, last) = id_tail-labels d l tail in
    record {
      first = c;
      rest = d ∷ l;
      split = refl;
      letter = letter;
      allowed = lowered c _ letter allowed;
      last = last;
      short = omega (arith, leb→le (length (d ∷ l)) 62 few);
    }
  where
    lowered : (c : ℕ) (b : Bool) → is_lower c ≡ true → b ≡ true → (is_label c && b) ≡ true
    lowered c b p q = ground arith

matched :
    (c : ℕ) (l : List ℕ)
    → is_lower c ≡ true
    → all is_label (c ∷ l) ≡ true
    → ends_well c l ≡ true
    → length (c ∷ l) ≤ 63
    → id_matches (c ∷ l) ≡ true
unfolding id_matches
matched c [] p a e s = ground arith
matched c (d ∷ l) p a e s =
    rw p (rw (id_tail-accepts d l ((&&-split (is_label c) _ a).1) e) (few (length l) s))
  where
    few : (n : ℕ) → suc (suc n) ≤ 63 → leb (suc n) 62 ≡ true
    few n h = ground arith

-- An identifier is accepted just when it is a label: at most 63 letters, digits and hyphens, of
-- which the first is a letter and the last is no hyphen.
pub valid_catalog_id-IsLabel : (id : String) → (valid_catalog_id id ≡ true) ↔ IsLabel (codes id)
unfolding valid_catalog_id
valid_catalog_id-IsLabel id = (id_matches-IsLabel (codes id), accepted)
  where
    accepted : IsLabel (codes id) → id_matches (codes id) ≡ true
    accepted l =
        ap id_matches l.split
        ∙ matched l.first l.rest l.letter (ap (all is_label) (sym l.split) ∙ l.allowed) l.last
            (subst (λ t. length t ≤ 63) l.split l.short)
