-- ===== src/Exec.antt =====
-- Python calls that change state and may raise: what was written before a raise stays written, so
-- the state comes back beside the error too. One `Error` for each place that raises.
pub mod Chain
pub mod Finally
pub mod Except
pub mod Message
pub mod Retry
use event_sourcing_cqrs.Prelude.{ℕ, String, ◌≡◌, refl, ap, ◌⊎◌, inl, inr}
use event_sourcing_cqrs.Events.{OrderStatus}

pub data Error : Type 0 where
  -- the `ValueError`s of api/services/aggregate.py
  empty_event_list cannot_confirm_empty : Error
  cannot_add_item cannot_confirm cannot_pay cannot_ship cannot_cancel : OrderStatus → Error
  -- the `ValueError` of api/services/event_store.py
  version_conflict : String → ℕ → Error
  -- the `HTTPException`s of the routers: 404 and 402
  order_not_found payment_failed : String → Error
  -- FastAPI's 422 for a body that its schema refuses
  unprocessable : Error
  -- tenacity's `RetryError`
  retry_error : Error
  -- an exception of a client library, with its text
  driver : String → Error

pub data Result (A : Type 0) : Type 0 where
  ok : A → Result A
  err : Error → Result A

abbrev value_or : {A : Type 0} → A → Result A → A
value_or d (ok a) = a
value_or d (err _) = d

pub ok-injective : {A : Type 0} {a b : A} → ok a ≡ ok b → a ≡ b
ok-injective {a} h = ap (value_or a) h

pub Result-cases :
    {A : Type 0} (r : Result A) → ((a : A) × (r ≡ ok a)) ⊎ ((e : Error) × (r ≡ err e))
Result-cases (ok a) = inl (a, refl)
Result-cases (err e) = inr (e, refl)

abbrev pub Exec : Type 0 → Type 0 → Type 0
Exec S A = S → Result A × S

module _ {S A : Type 0} where
  abbrev pub pure : A → Exec S A
  pure a s = (ok a, s)

  abbrev pub raise : Error → Exec S A
  raise e s = (err e, s)

  abbrev pub lift : Result A → Exec S A
  lift r s = (r, s)

module _ {S A B : Type 0} where
  abbrev pub continue : (A → Exec S B) → Result A → Exec S B
  continue f (ok a) s = f a s
  continue f (err e) s = (err e, s)

  infixl 5 ◌>>=◌ ◌>>◌
  abbrev pub ◌>>=◌ : Exec S A → (A → Exec S B) → Exec S B
  ◌>>=◌ m f s = let (r, s') = m s in continue f r s'

  abbrev pub ◌>>◌ : Exec S A → Exec S B → Exec S B
  m >> n = m >>= λ _. n
