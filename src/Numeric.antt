-- ===== src/Numeric.antt =====
-- PostgreSQL's NUMERIC columns with two decimals: a parameter of the model. `N` holds the numbers
-- with two decimals, of any size; a column takes those that fit its precision.
use event_sourcing_cqrs.Prelude.{Bool, Option}

pub record Numeric (F N : Type 0) : Type 0 where
  pub zero : N
  pub add : N → N → N
  -- a float, rounded for a NUMERIC(10, 2) or NUMERIC(12, 2) column; `none` where it does not fit
  pub to_price : F → Option N
  pub to_amount : F → Option N
  -- the float nearest to a number
  pub to_float : N → F
  -- whether a sum fits a NUMERIC(12, 2) column
  pub fits_amount : N → Bool
