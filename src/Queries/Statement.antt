-- ===== src/Queries/Statement.antt =====
-- The statement of `list_orders` in api/routers/query_router.py with its numbered placeholders, and
-- what PostgreSQL makes of it.
use event_sourcing_cqrs.Prelude.{
  ℕ, zero, suc, ◌+◌, String, str_eq, Option, none, some, List, [], ◌∷◌, ◌++◌, map, select, Bool,
  true, ◌&&◌, ltb, if◌then◌else◌,
}
use event_sourcing_cqrs.Projection.{◌>>=◌}
use event_sourcing_cqrs.Services.Postgres.{Plan}
use event_sourcing_cqrs.ReadModel.{OrderRow, Tables}
use event_sourcing_cqrs.Queries.{OrderResult, Readers, status_text, joined}
use event_sourcing_cqrs.Prelude.Newest.{page, newest_first}

-- Python's `int`; `negsuc n` is `-(n + 1)`.
pub data ℤ : Type 0 where
  pos negsuc : ℕ → ℤ

-- The columns `o.status` and `o.customer_id`.
pub data Column : Type 0 where
  status_column customer_column : Column

-- What `$1`, `$2`, ... stand for.
pub data Param : Type 0 where
  text : String → Param
  number : ℤ → Param

-- The three variables that build the statement.
pub record Builder : Type 0 where
  pub conditions : List (Column × ℕ)
  pub params : List Param
  pub idx : ℕ

abbrev pub start : Builder
start = record { conditions = []; params = []; idx = 1 }

-- One of the two `if`s, with what it makes of the value.
unfoldable pub add_condition : Column → (String → String) → Option String → Builder → Builder
add_condition column change none b = b
add_condition column change (some value) b = if str_eq value "" then b else record {
  conditions = b.conditions ++ (column, b.idx) ∷ [];
  params = b.params ++ text (change value) ∷ [];
  idx = b.idx + 1;
}

-- The statement, with the numbers of the placeholders of LIMIT and OFFSET.
pub record Statement : Type 0 where
  pub conditions : List (Column × ℕ)
  pub limit_at : ℕ
  pub offset_at : ℕ

abbrev pub statement_of : Builder → Statement
statement_of b = record { conditions = b.conditions; limit_at = b.idx; offset_at = b.idx + 1 }

-- `params.extend([limit, offset])`
abbrev pub params_of : Builder → ℤ → ℤ → List Param
params_of b limit offset = b.params ++ number limit ∷ number offset ∷ []

-- The parameter of a placeholder, counted from 1.
unfoldable pub param_at : ℕ → List Param → Option Param
param_at zero ps = none
param_at (suc n) [] = none
param_at (suc zero) (p ∷ ps) = some p
param_at (suc (suc n)) (p ∷ ps) = param_at (suc n) ps

abbrev pub as_text : Param → Option String
as_text (text value) = some value
as_text (number _) = none

-- A BIGINT that LIMIT and OFFSET take: 64 bits, and not negative.
unfoldable pub as_count : Param → Option ℕ
as_count (text _) = none
as_count (number (pos n)) = if ltb n 9223372036854775808 then some n else none
as_count (number (negsuc _)) = none

module _ {N : Type 0} where
  abbrev pub column_of : Column → OrderRow N → String
  column_of status_column row = status_text row.status
  column_of customer_column row = row.customer_id

  -- The conditions, joined by AND.
  unfoldable pub all_hold : List Param → List (Column × ℕ) → Option (OrderRow N → Bool)
  all_hold ps [] = some (λ row. true)
  all_hold ps ((column, i) ∷ cs) = do
    p ← param_at i ps
    value ← as_text p
    others ← all_hold ps cs
    some (λ row. str_eq (column_of column row) value && others row)

module _ {F N J : Type 0} (r : Readers F N J) where
  -- The rows of the statement; `none` where the server refuses a parameter.
  unfoldable pub run_statement :
      Statement → List Param → Plan → Tables N → Option (List (OrderResult F N))
  run_statement st ps plan t = do
    holds ← all_hold ps st.conditions
    limit_param ← param_at st.limit_at ps
    limit ← as_count limit_param
    offset_param ← param_at st.offset_at ps
    offset ← as_count offset_param
    some (
        map (joined r plan t) (
          page limit offset
            (newest_first (λ row. row.created_at) (plan.arrange (select holds t.orders)))))
