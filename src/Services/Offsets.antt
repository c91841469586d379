-- ===== src/Services/Offsets.antt =====
-- The committed position of a consumer group in its partition: `committed` records, counted from
-- the start of the log, will not be delivered again after a restart.
use event_sourcing_cqrs.Prelude.{ℕ, ◌≡◌, ◌⊎◌}
use event_sourcing_cqrs.Exec.{Exec, Error, ok, err}

pub record Offsets : Type 1 where
  pub State : Type 0
  pub committed : State → ℕ
  -- `commit()` with `n` records consumed so far
  pub commit : ℕ → Exec State (Unit {0})
  pub commit_returns : (n : ℕ) (s : State) → (commit n s).0 ≡ ok tt → committed (commit n s).1 ≡ n
  pub commit_raises :
      (n : ℕ) (s : State) (e : Error)
      → (commit n s).0 ≡ err e
      → (committed (commit n s).1 ≡ committed s) ⊎ (committed (commit n s).1 ≡ n)
