-- ===== src/Queries/Listing.antt =====
-- `list_orders` and `get_stats` of api/routers/query_router.py.
use event_sourcing_cqrs.Prelude.{
  ℕ, String, str_eq, Option, some, List, map, select, foldl, Bool, length,
}
use event_sourcing_cqrs.Exec.{Exec, pure, ◌>>=◌}
use event_sourcing_cqrs.Services.Postgres.{Plan}
use event_sourcing_cqrs.ReadModel.{OrderRow, Tables}
use event_sourcing_cqrs.Queries.{OrderResult, Readers, Desk, on_postgres, status_text, view_of}
use event_sourcing_cqrs.Queries.Statement.{
  ℤ, status_column, customer_column, Builder, start, add_condition, statement_of, params_of,
  run_statement,
}

-- The answer of `get_stats`.
pub record Stats (N : Type 0) : Type 0 where
  pub total_orders : ℕ
  pub pending : ℕ
  pub confirmed : ℕ
  pub paid : ℕ
  pub shipped : ℕ
  pub delivered : ℕ
  pub cancelled : ℕ
  pub total_revenue : N

module _ {N : Type 0} where
  abbrev pub has_status : String → OrderRow N → Bool
  has_status text row = str_eq (status_text row.status) text

  -- `COUNT(*) FILTER (WHERE status = ...)`
  abbrev pub count_status : String → List (OrderRow N) → ℕ
  count_status text rows = length (select (has_status text) rows)

module _ {F N J : Type 0} (r : Readers F N J) where
  -- The statement of `get_stats`.
  unfoldable pub stats_of : Plan → Tables N → Stats N
  stats_of plan t = record {
    total_orders = length t.orders;
    pending = count_status "PENDING" t.orders;
    confirmed = count_status "CONFIRMED" t.orders;
    paid = count_status "PAID" t.orders;
    shipped = count_status "SHIPPED" t.orders;
    delivered = count_status "DELIVERED" t.orders;
    cancelled = count_status "CANCELLED" t.orders;
    total_revenue = foldl r.numeric.add r.numeric.zero (
        map (λ (row : OrderRow N). row.total_amount)
          (plan.arrange (select (has_status "PAID") t.orders)));
  }

  -- `get_stats`
  unfoldable pub get_stats : Exec (Desk r) (Stats N)
  get_stats = on_postgres (r.postgres.fetch λ plan t. some (stats_of plan t))

  -- The two filters of `list_orders`.
  abbrev pub filters : Option String → Option String → Builder
  filters status customer_id =
      add_condition customer_column (λ v. v) customer_id
        (add_condition status_column r.upper status start)

  abbrev pub list_statement :
      Option String → Option String → ℤ → ℤ → Plan → Tables N → Option (List (OrderResult F N))
  list_statement status customer_id limit offset =
      let b = filters status customer_id in
      run_statement r (statement_of b) (params_of b limit offset)

  -- `list_orders`
  unfoldable pub list_orders : Option String → Option String → ℤ → ℤ → Exec (Desk r) (List J)
  list_orders status customer_id limit offset = do
    rows ← on_postgres (r.postgres.fetch (list_statement status customer_id limit offset))
    pure (map (λ row. r.respond (view_of r row)) rows)
