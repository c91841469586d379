-- ===== src/Exec/Finally.antt =====
-- `try: … finally: …`: the last part runs however the first ends, and an exception of the last takes
-- the place of what the first returned or raised.
use event_sourcing_cqrs.Prelude.{◌≡◌, refl, ◌⊎◌, inl, inr}
use event_sourcing_cqrs.Exec.{Exec, Error, Result, ok, err, Result-cases}

abbrev after_cleanup : {A : Type 0} → Result A → Result (Unit {0}) → Result A
after_cleanup r (ok _) = r
after_cleanup r (err e) = err e

module _ {S A : Type 0} (m : Exec S A) (cleanup : Exec S (Unit {0})) where
  abbrev pub try_finally : Exec S A
  try_finally s = let (r, s') = m s in let (c, s'') = cleanup s' in (after_cleanup r c, s'')

  -- The state is that after both parts, and the result is that of the first, or the exception of the
  -- last.
  pub try_finally-cases :
      (s : S)
      → ((try_finally s).1 ≡ (cleanup (m s).1).1)
        × (((cleanup (m s).1).0 ≡ ok tt) × ((try_finally s).0 ≡ (m s).0)
            ⊎ (e : Error) × ((cleanup (m s).1).0 ≡ err e) × ((try_finally s).0 ≡ err e))
  try_finally-cases s = elim (Result-cases (cleanup (m s).1).0) [
    | inl (_, done) ↦ (refl, inl (done, rw done refl))
    | inr (e, failed) ↦ (refl, inr (e, failed, rw failed refl))
  ]
