-- ===== src/Services/Redis.antt =====
-- Redis string keys. `lookup` is what the server holds under a key at a moment; a key that has
-- expired is not held.
use event_sourcing_cqrs.Prelude.{ℕ, String, ◌≡◌, ◌≢◌, ◌⊎◌, Bool, true, false, Option, none, some}
use event_sourcing_cqrs.Exec.{Exec, Error, ok, err}

abbrev pub is_some : {A : Type 0} → Option A → Bool
is_some none = false
is_some (some _) = true

pub record Redis : Type 1 where
  pub State : Type 0
  pub lookup : String → State → Option String
  pub get : String → Exec State (Option String)
  pub exists : String → Exec State Bool
  -- `setex(key, seconds, value)`
  pub setex : String → ℕ → String → Exec State (Unit {0})
  pub delete : String → Exec State (Unit {0})
  pub get_returns :
      (k : String) (s : State) (v : Option String) → (get k s).0 ≡ ok v → v ≡ lookup k s
  pub get_keeps : (k j : String) (s : State) → lookup j (get k s).1 ≡ lookup j s
  pub exists_returns :
      (k : String) (s : State) (b : Bool) → (exists k s).0 ≡ ok b → b ≡ is_some (lookup k s)
  pub exists_keeps : (k j : String) (s : State) → lookup j (exists k s).1 ≡ lookup j s
  pub setex_returns :
      (k : String) (seconds : ℕ) (v : String) (s : State)
      → (setex k seconds v s).0 ≡ ok tt
      → lookup k (setex k seconds v s).1 ≡ some v
  pub setex_others :
      (k : String) (seconds : ℕ) (v j : String) (s : State)
      → k ≢ j
      → lookup j (setex k seconds v s).1 ≡ lookup j s
  pub setex_raises :
      (k : String) (seconds : ℕ) (v : String) (s : State) (e : Error)
      → (setex k seconds v s).0 ≡ err e
      → (lookup k (setex k seconds v s).1 ≡ lookup k s)
        ⊎ (lookup k (setex k seconds v s).1 ≡ some v)
  pub delete_returns :
      (k : String) (s : State) → (delete k s).0 ≡ ok tt → lookup k (delete k s).1 ≡ none
  pub delete_raises :
      (k : String) (s : State) (e : Error)
      → (delete k s).0 ≡ err e
      → (lookup k (delete k s).1 ≡ lookup k s) ⊎ (lookup k (delete k s).1 ≡ none)
  pub delete_others : (k j : String) (s : State) → k ≢ j → lookup j (delete k s).1 ≡ lookup j s
