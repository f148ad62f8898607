-- ===== src/Application/Create/Accepted.antt =====
-- internal/application/service.go: `Create` asks nothing before the request is found valid.
use envy.Common.{
  ◌≡◌, refl, ◌⊎◌, inl, inr, String, Bool, true, false, ◌&&◌, all, leb, len, codes, Bool-cases, ℕ,
  ◌≤◌, leb→le,
}
use envy.Model.{CreateRequest, Platform}
use envy.Domain.Messaging.{Checked, passed, refused}
use envy.Application.Requests.{normalize_create}
use envy.Application.Requests.Validity.{IsRequest, normalize_create-IsRequest}
use envy.Application.Backend.{Backend, Config, Formats, History, ◌>>=◌, require, fail, pure}
use envy.Application.Create.{create}

abbrev pub is_printable : ℕ → Bool
is_printable c = leb 32 c && leb c 126

module _ (p : Platform) (f : Formats) (b : Backend) (cfg : Config) (req : CreateRequest)
    (key : String) where
  -- Either nothing was asked, or the request has a canonical form and the key is one.
  pub data Asks (h : History) : Type 0 where
    nothing : (create p f b cfg req key h).1 ≡ h → Asks h
    valid :
        (normal : CreateRequest) (ttl : ℕ)
        → normalize_create p f cfg req ≡ passed (normal, ttl)
        → IsRequest p f cfg normal ttl
        → len key ≤ 128
        → all is_printable (codes key) ≡ true
        → Asks h

  -- A request that is not valid, or comes with a key that is none, is refused before anything is
  -- asked of the store, of a provider, or of the clock.
  pub create-Asks : (h : History) → Asks h
  unfolding create ◌>>=◌ require fail pure
  create-Asks h =
      keyed (Bool-cases (leb (len key) 128))
        (Bool-cases (all (λ c. leb 32 c && leb c 126) (codes key))) (normalize_create p f cfg req)
        refl
    where
      keyed :
          (leb (len key) 128 ≡ true) ⊎ (leb (len key) 128 ≡ false)
          → (all (λ c. leb 32 c && leb c 126) (codes key) ≡ true)
            ⊎ (all (λ c. leb 32 c && leb c 126) (codes key) ≡ false)
          → (r : Checked (CreateRequest × ℕ)) → normalize_create p f cfg req ≡ r
          → Asks h
      keyed (inr long) t r e = Asks.nothing (rw long refl)
      keyed (inl short) (inr bad) r e = Asks.nothing (rw (short, bad) refl)
      keyed (inl short) (inl good) (refused err) e = Asks.nothing (rw (short, good, e) refl)
      keyed (inl short) (inl good) (passed x) e =
          Asks.valid x.0 x.1 e (normalize_create-IsRequest p f cfg req x e)
            (leb→le (len key) 128 short) good
