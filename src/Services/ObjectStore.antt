-- ===== src/Services/ObjectStore.antt =====
-- An S3 bucket: what has been put into it, in order, by key. A put that raises may have reached the
-- bucket or not.
use event_sourcing_cqrs.Prelude.{String, ◌≡◌, ◌⊎◌, List, [], ◌∷◌, ◌++◌}
use event_sourcing_cqrs.Exec.{Exec, Error, ok, err}

pub record ObjectStore (B : Type 0) : Type 1 where
  pub State : Type 0
  pub objects : State → List (String × B)
  pub put_object : String → B → Exec State (Unit {0})
  pub put_object_returns :
      (key : String) (body : B) (s : State)
      → (put_object key body s).0 ≡ ok tt
      → objects (put_object key body s).1 ≡ objects s ++ (key, body) ∷ []
  pub put_object_raises :
      (key : String) (body : B) (s : State) (e : Error)
      → (put_object key body s).0 ≡ err e
      → (objects (put_object key body s).1 ≡ objects s)
        ⊎ (objects (put_object key body s).1 ≡ objects s ++ (key, body) ∷ [])
