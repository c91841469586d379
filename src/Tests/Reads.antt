-- ===== src/Tests/Reads.antt =====
-- The queries of api/routers/query_router.py on the read model of one order in memory.
use Prim.Native.String.{◌++◌}
use event_sourcing_cqrs.Prelude.{
  ℕ, String, ◌≡◌, refl, inl, none, some, [], ◌∷◌, select, length, some-injective,
}
use event_sourcing_cqrs.Exec.{ok}
use event_sourcing_cqrs.Services.Postgres.{Plan}
use event_sourcing_cqrs.ReadModel.{Tables, find_order, update_order, upsert_item, sum_items}
use event_sourcing_cqrs.Projection.{
  project, project_payload, insert_order, insert_item, update_total, item_row, add_line,
}
use event_sourcing_cqrs.Projection.Refinement.{project_all}
use event_sourcing_cqrs.Consumer.{
  Stage, order_key, try_project, project_to_postgres, invalidate_cache,
}
use event_sourcing_cqrs.Exec.Retry.{retry}
use event_sourcing_cqrs.Prelude.Newest.{take, drop, newest_first, insert_newest}
use event_sourcing_cqrs.Queries.{
  OrderResult, Readers, Desk, order_result, view_of, get_order, read_order,
}
use event_sourcing_cqrs.Queries.CacheAside.{Outcome, get_order_lem}
use event_sourcing_cqrs.Queries.Freshness.{IsFresh}
use event_sourcing_cqrs.Queries.Answers.{RowReadsBack, get_order_returns, get_order_twice}
use event_sourcing_cqrs.Queries.Invalidation.{sinks_of, try_project-IsFresh}
use event_sourcing_cqrs.Queries.Statement.{
  pos, add_condition, run_statement, all_hold, param_at, as_count,
}
use event_sourcing_cqrs.Queries.Listing.{Stats, get_stats, stats_of, list_orders}
use event_sourcing_cqrs.Queries.Pages.{Shown, list_orders_returns}
use event_sourcing_cqrs.Queries.Stats.{rows_with, count_for, get_stats_returns}
use event_sourcing_cqrs.Events.{OrderStatus}
use event_sourcing_cqrs.Tests.Memory.{
  whole_numerics, memory_postgres, memory_redis, memory_collection, memory_queue, memory_group,
  in_order,
}
use event_sourcing_cqrs.Tests.Scenario.{created, filled}
use event_sourcing_cqrs.Tests.Views.{tables_after}

-- Documents that are texts with the order, its status and its customer.
abbrev pub readers : Readers ℕ ℕ String
readers = record {
  numeric = whole_numerics;
  timestamp = λ t. t;
  upper = λ s. s;
  dumps = λ d. d.order_id ++ "/" ++ d.status ++ "/" ++ d.customer_id;
  loads = λ text. some text;
  respond = λ v. v.order_id ++ "/" ++ v.status ++ "/" ++ v.customer_id;
  postgres = memory_postgres;
  redis = memory_redis;
}

abbrev one_order : Tables ℕ
one_order = tables_after ((100, created) ∷ (101, filled) ∷ [])

abbrev desk : Desk readers
desk = record { postgres = one_order; redis = λ k. none }

abbrev pub answer : String
answer = "o1/PENDING/ann"

get_order_first : (get_order readers "o1" desk).0 ≡ ok answer
unfolding get_order read_order order_result order_key find_order project_all project project_payload
    insert_order insert_item update_total item_row add_line update_order upsert_item sum_items
    select
get_order_first = refl

get_order_lem_example :
    ((get_order readers "o1" desk).1.postgres ≡ desk.postgres)
    × Outcome readers "o1" (get_order readers "o1" desk).0 desk (get_order readers "o1" desk).1
get_order_lem_example = get_order_lem readers "o1" desk

one_order-RowReadsBack : RowReadsBack readers "o1" one_order
unfolding order_result find_order project_all project project_payload insert_order insert_item
    update_total item_row add_line update_order upsert_item sum_items select
one_order-RowReadsBack plan result h = rw (← some-injective _ _ h) (refl, refl)

get_order_returns_example :
    (plan : Plan) × (result : OrderResult ℕ ℕ) × (order_result readers "o1" plan one_order
      ≡ some result)
    × (answer ≡ readers.respond (view_of readers result))
get_order_returns_example =
    get_order_returns readers "o1" desk answer (inl refl) one_order-RowReadsBack get_order_first

get_order_twice_example : answer ≡ answer
unfolding get_order read_order order_result order_key find_order project_all project project_payload
    insert_order insert_item update_total item_row add_line update_order upsert_item sum_items
    select
get_order_twice_example =
    get_order_twice readers "o1" desk answer answer one_order-RowReadsBack get_order_first refl

abbrev beside : Stage (sinks_of readers memory_collection memory_queue memory_group)
beside = record {
  postgres = tables_after ((100, created) ∷ []);
  redis = λ k. none;
  mongo = [];
  sqs = none;
  group = 1;
}

try_project-IsFresh_example :
    IsFresh readers one_order
      (try_project
        (sinks_of readers memory_collection memory_queue memory_group)
        101
        2
        filled
        beside).1.redis
      "o1"
unfolding try_project project_to_postgres retry invalidate_cache order_key find_order project_all
    project project_payload insert_order insert_item update_total item_row add_line update_order
    upsert_item sum_items select
try_project-IsFresh_example =
    try_project-IsFresh readers memory_collection memory_queue memory_group 101 2 filled beside refl
      (λ oid. inl refl) "o1"

list_orders_returns_example :
    Shown readers (some "PENDING") none (pos 20) (pos 0) in_order one_order (answer ∷ [])
unfolding take drop newest_first insert_newest list_orders run_statement all_hold param_at as_count
    add_condition find_order project_all project project_payload insert_order insert_item
    update_total item_row add_line update_order upsert_item sum_items select
list_orders_returns_example =
    list_orders_returns readers (some "PENDING") none (pos 20) (pos 0) desk (answer ∷ []) refl

abbrev counts : Stats ℕ
counts = stats_of readers in_order one_order

get_stats_returns_example :
    (counts.total_orders ≡ length one_order.orders)
    × ((status : OrderStatus) → count_for status counts ≡ rows_with status one_order.orders)
unfolding get_stats
get_stats_returns_example = get_stats_returns readers desk counts refl
