-- ===== src/Exec/Chain.antt =====
-- What is known of a chain of calls: the part of the state that each of them keeps, and the calls
-- that must have returned when the chain did.
use event_sourcing_cqrs.Prelude.{◌≡◌, refl, ◌∙◌, ◌⊎◌, inl, inr, arith}
use event_sourcing_cqrs.Exec.{Exec, Error, ok, err, Result-cases, ◌>>=◌}

module _ {S A B X : Type 0} (part : S → X) where
  pub bind-keeps :
      (m : Exec S A) (f : A → Exec S B)
      → ((s : S) → part (m s).1 ≡ part s)
      → ((a : A) (s : S) → part (f a s).1 ≡ part s)
      → (s : S) → part ((m >>= f) s).1 ≡ part s
  bind-keeps m f keeps then_keeps s = elim (Result-cases (m s).0) [
    | inl (a, done) ↦ rw done (then_keeps a (m s).1 ∙ keeps s)
    | inr (_, failed) ↦ rw failed (keeps s)
  ]

module _ {S A B : Type 0} (m : Exec S A) (f : A → Exec S B) (s : S) where
  -- The first call returns and the chain goes on, or it raises and the chain with it.
  pub bind-cases :
      ((a : A) × ((m s).0 ≡ ok a) × ((m >>= f) s ≡ f a (m s).1))
      ⊎ ((e : Error) × ((m s).0 ≡ err e) × ((m >>= f) s ≡ (err e, (m s).1)))
  bind-cases = elim (Result-cases (m s).0) [
    | inl (a, done) ↦ inl (a, done, rw done refl)
    | inr (e, failed) ↦ inr (e, failed, rw failed refl)
  ]

module _ {ℓ} {S A B : Type 0} (P : S → Type ℓ) (m : Exec S A) (f : A → Exec S B) where
  -- What both parts of a chain preserve, however they end, the chain does.
  pub bind-preserves :
      ((s : S) → P s → P (m s).1)
      → ((a : A) (s : S) → P s → P (f a s).1)
      → (s : S) → P s
      → P ((m >>= f) s).1
  bind-preserves first then s h = elim (bind-cases m f s) [
    | inl (a, _, same) ↦ rw same (then a (m s).1 (first s h))
    | inr (_, _, same) ↦ rw same (first s h)
  ]

module _ {ℓ} {S A B : Type 0} (m : Exec S A) (f : A → Exec S B) (s : S) where
  -- What the second part of a chain ensures when it returns, the chain does.
  pub bind-ensures :
      (P : S → Type ℓ) (b : B)
      → ((a : A) (t : S) → (f a t).0 ≡ ok b → P (f a t).1)
      → ((m >>= f) s).0 ≡ ok b
      → P ((m >>= f) s).1
  bind-ensures P b ensures h = elim (bind-cases m f s) [
    | inl (a, done, same) ↦ rw same (ensures a (m s).1 (rw same at h))
    | inr (e, failed, same) ↦ ground (arith, same, h)
  ]
