-- ===== src/Archiver/Bucket.antt =====
-- The bucket that consumers/archiver.py makes sure of when it starts (`ensure_bucket`), as
-- api/main.py does for the API.
use event_sourcing_cqrs.Prelude.{
  String, ◌≡◌, refl, ap, ◌∙◌, inl, inr, List, [], ◌∷◌, ◌++◌, Bool, true, false, ◌||◌, str_eq,
  if◌then◌else◌, Bool-cases,
}
use event_sourcing_cqrs.Exec.{Exec, Error, ok, err, pure, Result-cases, ◌>>=◌}
use event_sourcing_cqrs.Services.Buckets.{Buckets}

-- `name in existing`
abbrev pub is_among : String → List String → Bool
is_among name [] = false
is_among name (x ∷ xs) = str_eq x name || is_among name xs

module _ (s3 : Buckets) (bucket : String) where
  abbrev create_unless_there : List String → Exec s3.State (Unit {0})
  create_unless_there existing =
      if is_among bucket existing then pure tt else s3.create_bucket bucket

  -- The `try` block.
  abbrev try_ensure : Exec s3.State (Unit {0})
  try_ensure = do existing ← s3.list_buckets; create_unless_there existing

  -- Its `except` only logs.
  unfoldable pub ensure_bucket : Exec s3.State (Unit {0})
  ensure_bucket s = let (_, s') = try_ensure s in (ok tt, s')

  -- The bucket was there, or it was added at the end, or a call raised and nothing was added.
  pub data Ensured (s s' : s3.State) : Type 0 where
    already_there : is_among bucket (s3.names s) ≡ true → s3.names s' ≡ s3.names s → Ensured s s'
    added :
        is_among bucket (s3.names s) ≡ false
        → s3.names s' ≡ s3.names s ++ bucket ∷ []
        → Ensured s s'
    not_listed :
        (e : Error) → (s3.list_buckets s).0 ≡ err e → s3.names s' ≡ s3.names s → Ensured s s'
    not_created :
        (e : Error)
        → is_among bucket (s3.names s) ≡ false
        → (s3.create_bucket bucket (s3.list_buckets s).1).0 ≡ err e
        → s3.names s' ≡ s3.names s
        → Ensured s s'

  create_unless_there-Ensured :
      (s : s3.State)
      → let s₁ = (s3.list_buckets s).1 in Ensured s (create_unless_there (s3.names s) s₁).1
  create_unless_there-Ensured s =
      let kept = s3.list_buckets_keeps s in
      let s₁ = (s3.list_buckets s).1 in
      elim (Bool-cases (is_among bucket (s3.names s))) [
        | inl held ↦ rw held (already_there held kept)
        | inr missing ↦ elim (Result-cases (s3.create_bucket bucket s₁).0) [
          | inl (_, done) ↦ rw missing (
              added missing
                (s3.create_bucket_returns bucket s₁ done ∙ ap (λ names. names ++ bucket ∷ []) kept))
          | inr (e, failed) ↦ elim (s3.create_bucket_raises bucket s₁ e failed) [
            | inl same ↦ rw missing (not_created e missing failed (same ∙ kept))
            | inr written ↦
                rw missing (added missing (written ∙ ap (λ names. names ++ bucket ∷ []) kept))
          ]
        ]
      ]

  -- `ensure_bucket` never raises, and adds the bucket at most, and only if it was missing.
  pub ensure_bucket-Ensured :
      (s : s3.State) → ((ensure_bucket s).0 ≡ ok tt) × Ensured s (ensure_bucket s).1
  unfolding ensure_bucket
  ensure_bucket-Ensured s = elim (Result-cases (s3.list_buckets s).0) [
    | inr (e, failed) ↦ rw failed (refl, not_listed e failed (s3.list_buckets_keeps s))
    | inl (found, listed) ↦
        let same = s3.list_buckets_returns s found listed in
        rw (listed, same) (refl, create_unless_there-Ensured s)
  ]
