-- ===== src/Exec/Retry.antt =====
-- tenacity's `@retry(stop=stop_after_attempt(n))`: attempts until one returns; after the last
-- failure it raises `RetryError`. The waits between attempts change no state.
use event_sourcing_cqrs.Prelude.{ℕ, zero, suc, ◌≡◌}
use event_sourcing_cqrs.Exec.{Exec, Error, ok, err, retry_error}

module _ {S A : Type 0} where
  unfoldable pub retry : ℕ → Exec S A → Exec S A
  retry zero m s = (err retry_error, s)
  retry (suc n) m s =
      let (r, s') = m s in let rest = retry n m s' in elim r [ ok a ↦ (ok a, s') | err _ ↦ rest ]

  -- An attempt that returns ends the call.
  pub retry-ok :
      (n : ℕ) (m : Exec S A) (s : S) (a : A) → (m s).0 ≡ ok a → retry (suc n) m s ≡ (ok a, (m s).1)
  unfolding retry
  retry-ok n m s a e = rw (e, retry)

  -- One that raises is followed by the attempts that are left.
  pub retry-err :
      (n : ℕ) (m : Exec S A) (s : S) (error : Error)
      → (m s).0 ≡ err error
      → retry (suc n) m s ≡ retry n m (m s).1
  unfolding retry
  retry-err n m s error e = rw (e, retry)
