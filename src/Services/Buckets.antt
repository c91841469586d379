-- ===== src/Services/Buckets.antt =====
-- The buckets of an S3 account, by name. A creation that raises may have reached the account or not.
use event_sourcing_cqrs.Prelude.{String, ◌≡◌, ◌⊎◌, List, [], ◌∷◌, ◌++◌}
use event_sourcing_cqrs.Exec.{Exec, Error, ok, err}

pub record Buckets : Type 1 where
  pub State : Type 0
  pub names : State → List String
  pub list_buckets : Exec State (List String)
  pub create_bucket : String → Exec State (Unit {0})
  pub list_buckets_returns :
      (s : State) (found : List String) → (list_buckets s).0 ≡ ok found → found ≡ names s
  pub list_buckets_keeps : (s : State) → names (list_buckets s).1 ≡ names s
  pub create_bucket_returns :
      (name : String) (s : State)
      → (create_bucket name s).0 ≡ ok tt
      → names (create_bucket name s).1 ≡ names s ++ name ∷ []
  pub create_bucket_raises :
      (name : String) (s : State) (e : Error)
      → (create_bucket name s).0 ≡ err e
      → (names (create_bucket name s).1 ≡ names s)
        ⊎ (names (create_bucket name s).1 ≡ names s ++ name ∷ [])
