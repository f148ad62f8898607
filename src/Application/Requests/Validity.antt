-- ===== src/Application/Requests/Validity.antt =====
-- internal/application/service.go: what `NormalizeCreate` and `ValidateOverrides` accept.
use envy.Common.{
  ℕ, ◌≤◌, ◌<◌, ℤ, pos, negsuc, lez, ◌≡◌, refl, sym, subst, inl, inr, String, true, false, not, ◌&&◌,
  ◌||◌, Option, none, some, List, [], ◌∷◌, Map, get_or, has_key, length, all, All, ltb, ◌==◌, len,
  codes, str_eq, eq_iff, Bool-cases, &&-split, ltb→lt, arith,
}
use envy.Model.{CreateRequest, ComponentOverride, Build, Platform}
use envy.Domain.Catalog.{override_names, max_overrides}
use envy.Domain.Catalog.Labels.{IsLabel, valid_catalog_id-IsLabel}
use envy.Domain.Workload.{reject_if}
use envy.Domain.Messaging.{Checked, passed, refused, ◌>>=◌}
use envy.Application.Backend.{Config, Formats}
use envy.Application.Requests.{
  blank, contains_any, is_any_hex, no_override, or_empty, validate_override, validate_each,
  validate_overrides, validate_preview_guards, requested_ttl, bound_ttl, longest_ttl,
  normalize_create,
}

-- What a client may name for a component: an image reference, or a build, but not both, and no
-- provenance.
pub data IsSource (o : ComponentOverride) : Type 0 where
  by_image :
      o.build_id ≡ ""
      → blank o.image ≡ false
      → len o.image ≤ 512
      → contains_any o.image (32 ∷ 9 ∷ 13 ∷ 10 ∷ []) ≡ false
      → IsSource o
  by_build :
      o.image ≡ "" → len o.build_id ≡ 64 → all is_any_hex (codes o.build_id) ≡ true → IsSource o

pub record IsOverride (name : String) (o : ComponentOverride) : Type 0 where
  pub label : IsLabel (codes name)
  pub unproven : o.source ≡ none
  pub origin : IsSource o

no_source : (o : Option Build) → (elim o [ none ↦ false | some _ ↦ true ]) ≡ false → o ≡ none
no_source none h = refl
no_source (some b) h = cc

built :
    (o : ComponentOverride)
    → reject_if
        (not (str_eq o.image "") || not (len o.build_id == 64))
        "select either image or build_id"
        (reject_if (not (all is_any_hex (codes o.build_id))) "invalid build_id" none)
      ≡ none
    → IsSource o
built o e = IsSource.by_build ((eq_iff o.image "").0 (ground arith)) (ground arith) (ground arith)

named :
    (o : ComponentOverride)
    → str_eq o.build_id "" ≡ true
    → reject_if
        (blank o.image || ltb 512 (len o.image) || contains_any o.image (32 ∷ 9 ∷ 13 ∷ 10 ∷ []))
        "image must be a nonempty container image reference without whitespace"
        none
      ≡ none
    → IsSource o
named o direct e =
    IsSource.by_image ((eq_iff o.build_id "").0 direct) (ground arith) (ground arith) (ground arith)

validate_override-IsOverride :
    (name : String) (o : ComponentOverride) → validate_override name o ≡ none → IsOverride name o
unfolding validate_override
validate_override-IsOverride name o e = record {
  label = (valid_catalog_id-IsLabel name).0 (ground arith);
  unproven = no_source o.source (ground arith);
  origin = elim (Bool-cases (str_eq o.build_id "")) [
    | inl direct ↦ named o direct (ground (arith, direct))
    | inr other ↦ built o (ground (arith, other))
  ];
}

validate_each-IsOverride :
    (overrides : Map ComponentOverride) (names : List String)
    → validate_each overrides names ≡ none
    → All (λ name. IsOverride name (get_or no_override name overrides)) names
unfolding validate_each
validate_each-IsOverride overrides [] e = tt
validate_each-IsOverride overrides (name ∷ names) e = (
  validate_override-IsOverride name _ (ground arith),
  validate_each-IsOverride overrides names (ground arith),
)

-- At most three overrides, each of them valid.
pub record AreOverrides (overrides : Map ComponentOverride) : Type 0 where
  pub few : length overrides ≤ max_overrides
  pub each :
      All (λ name. IsOverride name (get_or no_override name overrides)) (override_names overrides)

pub validate_overrides-AreOverrides :
    (overrides : Option (Map ComponentOverride))
    → validate_overrides overrides ≡ none
    → AreOverrides (or_empty overrides)
unfolding validate_overrides
validate_overrides-AreOverrides none e = cc
validate_overrides-AreOverrides (some overrides) e = record {
  few = ground arith;
  each = validate_each-IsOverride overrides _ (ground arith);
}

-- A preview revision is expected only of a selected component, and is positive.
abbrev pub IsGuard : Map ComponentOverride → String × ℤ → Type 0
IsGuard overrides g = (has_key g.0 overrides ≡ true) × (lez (pos 1) g.1 ≡ true)

pub validate_preview_guards-IsGuard :
    (guards : Map ℤ) (overrides : Map ComponentOverride)
    → validate_preview_guards guards overrides ≡ none
    → All (IsGuard overrides) guards
unfolding validate_preview_guards
validate_preview_guards-IsGuard [] overrides e = tt
validate_preview_guards-IsGuard ((component, revision) ∷ guards) overrides e =
    ((ground arith, ground arith), validate_preview_guards-IsGuard guards overrides (ground arith))

module _ (p : Platform) (f : Formats) (cfg : Config) where
  -- A request in its canonical form: named, with valid overrides and guards, no resources, and a TTL
  -- that is positive and within the bound of the configuration.
  pub record IsRequest (req : CreateRequest) (ttl : ℕ) : Type 0 where
    pub project : blank req.project ≡ false
    pub baseline : blank req.baseline ≡ false
    pub name : blank req.name ≡ false
    pub short : len req.name ≤ 128
    pub guards : All (IsGuard (or_empty req.overrides)) req.expected_preview_revisions
    pub overrides : AreOverrides (or_empty req.overrides)
    pub resources : req.resources ≡ []
    pub positive : 0 < ttl
    pub within : lez (pos ttl) (longest_ttl p f cfg) ≡ true
    pub canonical : req.ttl ≡ f.duration_text ttl

  bound_ttl-within :
      (asked : ℤ) (ttl : ℕ)
      → bound_ttl p f cfg asked ≡ passed ttl
      → (0 < ttl) × (lez (pos ttl) (longest_ttl p f cfg) ≡ true)
  unfolding bound_ttl
  bound_ttl-within (negsuc n) ttl e = cc
  bound_ttl-within (pos n) ttl e =
      elim (Bool-cases (ltb 0 n && lez (pos n) (longest_ttl p f cfg))) [
        | inl fits ↦
            let (a, b) = &&-split (ltb 0 n) (lez (pos n) (longest_ttl p f cfg)) fits in
            let same : n ≡ ttl = cc (e, fits) in
            subst (λ m. (0 < m) × (lez (pos m) (longest_ttl p f cfg) ≡ true)) same (ltb→lt 0 n a, b)
        | inr not_ ↦ cc (e, not_)
      ]

  -- The TTL of a normalized request came through `bound_ttl`.
  normal_ttl :
      (req : CreateRequest) (asked : Checked ℤ) (x : CreateRequest × ℕ)
      → (asked >>= (λ n.
          bound_ttl p f cfg n
          >>= (λ ttl. passed (record req { resources = []; ttl = f.duration_text ttl }, ttl))))
        ≡ passed x
      → (x.0 ≡ record req { resources = []; ttl = f.duration_text x.1 })
        × ((0 < x.1) × (lez (pos x.1) (longest_ttl p f cfg) ≡ true))
  normal_ttl req (refused err) x e = cc
  normal_ttl req (passed n) x e = bounded (bound_ttl p f cfg n) refl e
    where
      bounded :
          (r : Checked ℕ)
          → bound_ttl p f cfg n ≡ r
          → (r >>= (λ ttl. passed (record req { resources = []; ttl = f.duration_text ttl }, ttl)))
            ≡ passed x
          → (x.0 ≡ record req { resources = []; ttl = f.duration_text x.1 })
            × ((0 < x.1) × (lez (pos x.1) (longest_ttl p f cfg) ≡ true))
      bounded (refused err) b h = cc
      bounded (passed ttl) b h =
          let same : (record req { resources = []; ttl = f.duration_text ttl }, ttl) ≡ x = cc h in
          subst
            (λ y.
              (y.0 ≡ record req { resources = []; ttl = f.duration_text y.1 })
              × ((0 < y.1) × (lez (pos y.1) (longest_ttl p f cfg) ≡ true)))
            same (refl, bound_ttl-within n ttl b)

  requested_IsRequest :
      (req : CreateRequest) (x : CreateRequest × ℕ)
      → normalize_create p f cfg req ≡ passed x
      → IsRequest (record req { resources = []; ttl = f.duration_text x.1 }) x.1
        × (x.0 ≡ record req { resources = []; ttl = f.duration_text x.1 })
  unfolding normalize_create
  requested_IsRequest req x e =
      let (same, (positive, within)) =
        normal_ttl req (requested_ttl p f cfg req.ttl) x (ground arith) in
      (
        record {
          project = ground arith;
          baseline = ground arith;
          name = ground arith;
          short = ground arith;
          guards = validate_preview_guards-IsGuard req.expected_preview_revisions _ (ground arith);
          overrides = validate_overrides-AreOverrides req.overrides (ground arith);
          resources = refl;
          positive = positive;
          within = within;
          canonical = refl;
        },
        same,
      )

  -- What `NormalizeCreate` passes on is a request in its canonical form.
  pub normalize_create-IsRequest :
      (req : CreateRequest) (x : CreateRequest × ℕ)
      → normalize_create p f cfg req ≡ passed x
      → IsRequest x.0 x.1
  normalize_create-IsRequest req x e =
      let (k, same) = requested_IsRequest req x e in subst (λ r. IsRequest r x.1) (sym same) k
