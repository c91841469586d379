-- ===== src/Exec/Except.antt =====
-- `try: … except …: …`, with a handler for every exception.
use event_sourcing_cqrs.Prelude.{◌≡◌, refl, ◌⊎◌, inl, inr}
use event_sourcing_cqrs.Exec.{Exec, Error, Result, ok, err, Result-cases}

module _ {S A : Type 0} where
  abbrev recover : (Error → Exec S A) → Result A → Exec S A
  recover handler (ok a) s = (ok a, s)
  recover handler (err e) s = handler e s

  abbrev pub try_except : Exec S A → (Error → Exec S A) → Exec S A
  try_except m handler s = let (r, s') = m s in recover handler r s'

  -- The first part returns, or the handler goes on from where it raised.
  pub try_except-cases :
      (m : Exec S A) (handler : Error → Exec S A) (s : S)
      → ((a : A) × ((m s).0 ≡ ok a) × (try_except m handler s ≡ (ok a, (m s).1)))
        ⊎ ((e : Error) × ((m s).0 ≡ err e) × (try_except m handler s ≡ handler e (m s).1))
  try_except-cases m handler s = elim (Result-cases (m s).0) [
    | inl (a, done) ↦ inl (a, done, rw done refl)
    | inr (e, failed) ↦ inr (e, failed, rw failed refl)
  ]
