-- ===== src/Float.antt =====
-- Python's `float`, as far as the code computes with it: a parameter of the model, since binary
-- floating point is the platform's. No law is assumed, not even that addition is associative.
use event_sourcing_cqrs.Prelude.{ℕ, Bool}

pub record Float (F : Type 0) : Type 0 where
  pub zero : F
  pub add : F → F → F
  -- `quantity * unit_price`, an int times a float
  pub times : ℕ → F → F
  pub is_pos : F → Bool
