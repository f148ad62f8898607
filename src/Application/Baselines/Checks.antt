-- ===== src/Application/Baselines/Checks.antt =====
-- internal/application/catalog.go: what the checks of `validateBaseline` before and after its loop ensure.
use envy.Common.{
  ℕ, ◌||◌, ◌≤◌, ◌≡◌, refl, ◌⊎◌, inl, inr, String, Bool, true, false, Option, none, some, List, [],
  ◌∷◌, length, has_key, sorted_keys, str_eq, eq_iff, Bool-cases, arith, is_empty,
}
use envy.Model.{Url, Baseline, Platform}
use envy.Domain.Catalog.{valid_catalog_id}
use envy.Domain.Catalog.Labels.{IsLabel, id_matches-IsLabel}
use envy.Application.Components.{valid_path}
use envy.Application.Bindings.{is_endpoint_free, routes_nothing, first_name}
use envy.Application.Baselines.{
  under_domain, host_label, of_host, of_endpoint, check_endpoint, check_contract, check_pubsub,
  check_labels,
}
use envy.Application.Lookups.{is_read}
use envy.Application.Backend.{Backend, Config, Formats, Query, validate_provider}
use envy.Application.Allows.{
  Allows, Allows-pure, Allows-fail, Allows-given, Allows-ask, Allows-require, Allows-weaken,
  Anything,
}

-- The tests of the labels, which the later steps leave as they are.
abbrev pub IsLabelled : Baseline → Type 0
IsLabelled b =
    (valid_catalog_id b.id ≡ true)
    × ((valid_catalog_id b.project ≡ true)
        × ((valid_catalog_id b.revision ≡ true)
            × ((valid_catalog_id b.routing.namespace ≡ true)
                × ((is_endpoint_free b ≡ true) ⊎ (valid_catalog_id b.routing.gateway ≡ true)))))

module _ (p : Platform) (f : Formats) (b : Backend) (cfg : Config) where
  -- An endpoint under the domain of previews, with a label of its own, written without a path.
  pub record IsHost (endpoint : String) : Type 0 where
    pub url : Url
    pub domain : Url
    pub configured : f.parse_url cfg.preview_base_url ≡ some domain
    pub under : under_domain p f b cfg url domain ≡ true
    pub label : List ℕ
    pub split : host_label p f b cfg url domain ≡ some label
    pub is_label : IsLabel label
    pub written : endpoint ≡ f.url_text (record url { path = "" })

  abbrev pub IsEndpoint : Baseline → Type 0
  IsEndpoint base =
      ((is_endpoint_free base ≡ true) × (routes_nothing base ≡ true))
      ⊎ ((is_endpoint_free base ≡ false) × IsHost base.endpoint)

  -- The kind of a contract, and the names that are gone through for it.
  pub data IsContract (base : Baseline) (names : List String) : Type 0 where
    endpoint_free :
        base.verification.kind ≡ "none"
        → base.verification.chain ≡ []
        → names ≡ sorted_keys base.components
        → IsContract base names
    chained :
        base.verification.kind ≡ "envy-chain"
        → length base.verification.chain ≡ length base.components
        → base.routing.entry_component ≡ first_name base.verification.chain
        → names ≡ base.verification.chain
        → IsContract base names
    probed :
        base.verification.kind ≡ "http"
        → base.verification.chain ≡ []
        → valid_path f base.verification.path ≡ true
        → 200 ≤ base.verification.expected_status
        → base.verification.expected_status ≤ 299
        → has_key base.routing.entry_component base.components ≡ true
        → names ≡ sorted_keys base.components
        → IsContract base names

  abbrev pub IsSized : Baseline → Type 0
  IsSized base = (1 ≤ length base.components) × (length base.components ≤ 20)

  empty : {A : Type 0} (xs : List A) → is_empty xs ≡ true → xs ≡ []
  empty [] e = refl
  empty (x ∷ xs) e = cc

  module _ {P : Query → Type 0} (reads : (q : Query) → is_read q ≡ true → P q) where
    pub check_labels-Allows :
        (base : Baseline) → Allows P (λ _. IsLabelled base) (check_labels p f b cfg base)
    unfolding check_labels
    check_labels-Allows base = Allows-given _ _ _ (λ _ ids. Allows-given _ _ _ (λ _ _.
        Allows-given _ _ _ (λ _ _.
          Allows-weaken
            (λ _ routed. (
              ground arith,
              (
                ground arith,
                (ground arith, (ground arith, gateway (is_endpoint_free base) _ (ground arith))),
              ),
            ))
            _ (Allows-require _ _))))
      where
        gateway : (x y : Bool) → (x || y) ≡ true → (x ≡ true) ⊎ (y ≡ true)
        gateway true y e = inl refl
        gateway false y e = inr e

    of_host-Allows :
        (base : Baseline) (u domain : Url) (o : Option (List ℕ))
        → is_endpoint_free base ≡ false
        → IsLabelled base
        → f.parse_url cfg.preview_base_url ≡ some domain
        → under_domain p f b cfg u domain ≡ true
        → host_label p f b cfg u domain ≡ o
        → Allows P (λ base'. IsLabelled base' × IsEndpoint base') (of_host p f b cfg base u o)
    of_host-Allows base u domain none e k c t s = Allows-fail _
    of_host-Allows base u domain (some label) e k c t s = Allows-given _ _ _ (λ _ ok.
        Allows-pure _ (
          k,
          inr (
            e,
            record {
              url = u;
              domain = domain;
              configured = c;
              under = t;
              label = label;
              split = s;
              is_label = id_matches-IsLabel label ok;
              written = refl;
            },
          ),
        ))

    of_endpoint-Allows :
        (base : Baseline) (u domain : Option Url)
        → is_endpoint_free base ≡ false
        → IsLabelled base
        → f.parse_url cfg.preview_base_url ≡ domain
        → Allows P
            (λ base'. IsLabelled base' × IsEndpoint base')
            (of_endpoint p f b cfg base u domain)
    of_endpoint-Allows base none domain e k c = Allows-fail _
    of_endpoint-Allows base (some u) none e k c = Allows-fail _
    of_endpoint-Allows base (some u) (some domain) e k c =
        Allows-given _ _ _ (λ _ t. of_host-Allows base u domain _ e k c t refl)

    pub check_endpoint-Allows :
        (base : Baseline) (free : Bool)
        → is_endpoint_free base ≡ free
        → IsLabelled base
        → Allows P
            (λ base'. IsLabelled base' × IsEndpoint base')
            (check_endpoint p f b cfg base free)
    unfolding check_endpoint
    check_endpoint-Allows base true e k =
        Allows-given _ _ _ (λ _ quiet. Allows-pure base (k, inl (e, quiet)))
    check_endpoint-Allows base false e k = of_endpoint-Allows base _ _ e k refl

    pub check_contract-Allows :
        (base : Baseline)
        → IsLabelled base
        → IsEndpoint base
        → IsSized base
        → Allows P
            (λ r. (IsLabelled r.0 × IsEndpoint r.0) × (IsSized r.0 × IsContract r.0 r.1))
            (check_contract p f b cfg base)
    unfolding check_contract
    check_contract-Allows base k e n = elim (Bool-cases (str_eq base.verification.kind "none")) [
      | inl free ↦ rw free (
          Allows-given _ _ _ (λ _ ok.
            Allows-pure _ (
              (k, e),
              (n, endpoint_free ((eq_iff _ "none").0 free) (empty _ (ground arith)) refl),
            )))
      | inr other ↦ elim (Bool-cases (str_eq base.verification.kind "envy-chain")) [
        | inl chain ↦
            rw (other, chain)
              (Allows-given _ _ _ (λ _ ok. Allows-given _ _ _ (λ _ entry. Allows-pure _ (
                (k, e),
                (
                  n,
                  chained ((eq_iff _ "envy-chain").0 chain) (ground arith) ((eq_iff _ _).0 entry)
                      refl,
                ),
              ))))
        | inr unchained ↦ elim (Bool-cases (str_eq base.verification.kind "http")) [
          | inl probe ↦
              rw (other, unchained, probe)
                (Allows-given _ _ _ (λ _ ok. Allows-given _ _ _ (λ _ entry. Allows-pure _ (
                  (k, e),
                  (
                    n,
                    probed ((eq_iff _ "http").0 probe) (empty _ (ground arith)) (ground arith)
                        (ground arith) (ground arith) entry refl,
                  ),
                ))))
          | inr unknown ↦ rw (other, unchained, unknown) (Allows-fail _)
        ]
      ]
    ]

    pub check_pubsub-Allows :
        (base : Baseline) (none_used : Bool)
        → Allows P Anything (check_pubsub p f b cfg base none_used)
    unfolding check_pubsub
    check_pubsub-Allows base true = Allows-pure tt tt
    check_pubsub-Allows base false =
        Allows-given _ _ _ (λ _ _. Allows-ask _ _ (reads (validate_provider base) refl))
