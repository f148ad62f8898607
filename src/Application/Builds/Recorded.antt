-- ===== src/Application/Builds/Recorded.antt =====
-- internal/application/builds.go: what a build is that `RecordBuild` asks the store to record.
use envy.Common.{
  ℕ, ◌≤◌, ◌≡◌, refl, ap, ◌∙◌, ℤ, pos, negsuc, lez, leb→le, String, Bool, true, false, not, ◌&&◌,
  Option, none, some, List, [], ◌∷◌, ◌++◌, lookup, all, All, ◌==◌, if◌then◌else◌, codes, Bool-cases,
  inl, inr, arith, &&-split,
}
use envy.Model.{Build, BuildReport, SourceRepository, Platform, Time}
use envy.Application.Requests.{hex_digits, is_digest}
use envy.Application.Backend.{
  Backend, Formats, Query, record_build, wake_github, read_clock, resolve_commit,
}
use envy.Application.Builds.{
  split_image, same_codes, at_location, run_id_codes, report_ok, record_report, attempt_number,
  reported_build,
}
use envy.Application.Lookups.{is_read, eligible_repository-Allows, check_image-Allows}
use envy.Application.Allows.{
  Allows, Allows-pure, Allows-bind, Allows-then, Allows-after, Allows-given, Answered, Anything,
}

-- An image is its location, an `@` and a digest of 64 hexadecimal digits.
pub record IsPinned (location image : String) : Type 0 where
  pub digest : List ℕ
  pub pinned : codes image ≡ codes location ++ (b'@' ∷ digest)
  pub valid : is_digest digest ≡ true

same_codes-same : (a b : List ℕ) → same_codes a b ≡ true → a ≡ b
same_codes-same [] [] e = refl
same_codes-same [] (d ∷ b) e = cc
same_codes-same (c ∷ a) [] e = cc
same_codes-same (c ∷ a) (d ∷ b) e =
    let (h, t) = &&-split (c == d) (same_codes a b) e in
    let rest = same_codes-same a b t in let first : c ≡ d = ground arith in cc (rest, first)

Splits : List ℕ → Option (List ℕ × List ℕ) → Type 0
Splits cs none = Unit
Splits cs (some p) = cs ≡ p.0 ++ (b'@' ∷ p.1)

split_image-Splits : (cs : List ℕ) → Splits cs (split_image cs)
unfolding Splits
split_image-Splits [] = tt
split_image-Splits (c ∷ cs) = elim (Bool-cases (c == b'@')) [
  | inl here ↦ rw here (first (all (λ d. not (d == b'@')) cs) (ground arith))
  | inr other ↦ rw other (later (split_image cs) (split_image-Splits cs))
]
  where
    first : (b : Bool) → c ≡ b'@' → Splits (c ∷ cs) (if b then some ([], cs) else none)
    first true e = ap (λ x. x ∷ cs) e
    first false e = tt

    later :
        (o : Option (List ℕ × List ℕ))
        → Splits cs o
        → Splits (c ∷ cs) (elim o [ none ↦ none | some p ↦ some (c ∷ p.0, p.1) ])
    later none q = tt
    later (some p) q = ap (λ x. c ∷ x) q

at_location-IsPinned :
    (location image : String) → at_location (some location) image ≡ true → IsPinned location image
unfolding at_location Splits
at_location-IsPinned location image h =
    at (split_image (codes image)) (split_image-Splits (codes image)) h
  where
    at :
        (o : Option (List ℕ × List ℕ))
        → Splits (codes image) o
        → (elim o [ none ↦ false | some p ↦ same_codes p.0 (codes location) && is_digest p.1 ])
          ≡ true
        → IsPinned location image
    at none s h' = cc
    at (some p) s h' =
        let (same, valid) = &&-split (same_codes p.0 (codes location)) (is_digest p.1) h' in
        record {
          digest = p.1;
          pinned = s ∙ ap (λ x. x ++ (b'@' ∷ p.1)) (same_codes-same p.0 (codes location) same);
          valid = valid;
        }

module _ (p : Platform) (f : Formats) (b : Backend) where
  -- A build as it is recorded, of a report for a component of a repository that the store returned
  -- as enabled: of a whole commit, of an
  -- image at the location that the repository approves, with an identity that is its hash.
  pub record IsBuild (project id : String) (build : Build) : Type 0 where
    pub repository : SourceRepository
    pub known : Answered (λ h. b.repository h project id) repository
    pub enabled : repository.enabled ≡ true
    pub location : String
    pub mapped : lookup build.component repository.images ≡ some location
    pub image : IsPinned location build.image
    pub revision : hex_digits 40 (codes build.revision) ≡ true
    pub run : run_id_codes (codes build.run_id) ≡ true
    pub first : 1 ≤ build.attempt
    pub last : build.attempt ≤ 100_000
    pub owner : build.project ≡ project
    pub of_repository : build.repository ≡ id
    pub identity :
        build.id
        ≡ p.digest 32 (f.encode_build project id build.component build.run_id build.attempt)

  abbrev pub Records : String → String → Query → Type 0
  Records project id (record_build build) = IsBuild project id build
  Records project id wake_github = Unit
  Records project id q = is_read q ≡ true

  Records-reads : (project id : String) (q : Query) → is_read q ≡ true → Records project id q
  Records-reads project id (record_build build) e = cc
  Records-reads project id wake_github e = cc
  Records-reads project id q e = e

  mapped_location :
      (o : Option String) (image : String)
      → at_location o image ≡ true
      → (location : String) × ((o ≡ some location) × IsPinned location image)
  unfolding at_location
  mapped_location none image h = cc
  mapped_location (some location) image h =
      (location, (refl, at_location-IsPinned location image h))

  attempt_bounds :
      (a : ℤ)
      → lez (pos 1) a ≡ true
      → lez a (pos 100_000) ≡ true
      → (1 ≤ attempt_number a) × (attempt_number a ≤ 100_000)
  attempt_bounds (pos n) lo hi = (leb→le 1 n lo, leb→le n 100_000 hi)
  attempt_bounds (negsuc n) lo hi = cc

  reported_build-IsBuild :
      (project id : String) (report : BuildReport) (now : Time) (r : SourceRepository)
      → report_ok p f b now report ≡ true
      → r.enabled ≡ true
      → Answered (λ h. b.repository h project id) r
      → at_location (lookup report.component r.images) report.image ≡ true
      → IsBuild project id (reported_build p f b project id r report)
  unfolding reported_build report_ok
  reported_build-IsBuild project id report now r valid on known located =
      let (location, (mapped, image)) = mapped_location _ report.image located in
      let (first, last) = attempt_bounds report.attempt (ground arith) (ground arith) in
      record {
        repository = r;
        known = known;
        enabled = on;
        location = location;
        mapped = mapped;
        image = image;
        revision = ground arith;
        run = ground arith;
        first = first;
        last = last;
        owner = refl;
        of_repository = refl;
        identity = refl;
      }

  record_report-Allows :
      (project id : String) (report : BuildReport)
      → Allows (Records project id) Anything (record_report p f b project id report)
  unfolding record_report
  record_report-Allows project id report =
      let reads = Records-reads project id in
      Allows-after _ _ _
        (λ now. Allows-given _ _ _ (λ _ valid.
          Allows-bind (λ r. (r.enabled ≡ true) × Answered (λ h. b.repository h project id) r)
            (λ r on. Allows-given _ _ _ (λ _ located.
              Allows-after _ _ _
                (λ sha. Allows-given _ _ _ (λ _ _.
                  Allows-then _ _ (check_image-Allows reads b _) (λ _.
                    Allows-after _ _ _
                      (λ result. Allows-after _ _ _ (λ _. Allows-pure result tt) tt)
                      (reported_build-IsBuild project id report now r valid on.0 on.1 located))))
                (reads (resolve_commit r report.revision) refl)))
            (eligible_repository-Allows reads b project id)))
        (reads read_clock refl)

  -- Whatever the store and the providers answer, a report asks the store at most to record a build, and
  -- changes nothing else but to wake the GitHub previews. The build is of a component that the repository, as
  -- the store returned it and enabled, maps to a location, its image is at that location and pinned to a digest, its commit and
  -- run are whole, its attempt is from 1 through 100,000, and its identity is the hash of its project,
  -- repository, component, run and attempt.
  pub record_report-IsBuild :
      (project id : String) (report : BuildReport)
      → All (Records project id) (record_report p f b project id report []).1
  record_report-IsBuild project id report = (record_report-Allows project id report).queries [] tt
