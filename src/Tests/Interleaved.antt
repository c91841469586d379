-- ===== src/Tests/Interleaved.antt =====
-- A query of api/routers/query_router.py that reads an order before an event of it is projected, and
-- writes the cache after.
use event_sourcing_cqrs.Prelude.{refl, none, [], ◌∷◌, select}
use event_sourcing_cqrs.Exec.Retry.{retry}
use event_sourcing_cqrs.ReadModel.{find_order, update_order, upsert_item, sum_items}
use event_sourcing_cqrs.Projection.{
  project, project_payload, insert_order, insert_item, update_total, item_row, add_line,
}
use event_sourcing_cqrs.Consumer.{
  order_key, processed_key, try_project, project_to_postgres, invalidate_cache,
}
use event_sourcing_cqrs.Queries.{order_result}
use event_sourcing_cqrs.Queries.Sharing.{
  Shared, read, write, attempt, consumer_call, invalidate, Reach, here, next, HoldsShown,
}
use event_sourcing_cqrs.Queries.Interleaving.{Reach-HoldsShown}
use event_sourcing_cqrs.Queries.Interleaving.Alone.{get_order-Reach}
use event_sourcing_cqrs.Tests.Memory.{memory_collection, memory_queue, memory_group}
use event_sourcing_cqrs.Tests.Scenario.{created, filled}
use event_sourcing_cqrs.Tests.Views.{empty_tables}
use event_sourcing_cqrs.Tests.Reads.{readers}

abbrev All : Type 0
All = Shared readers memory_collection memory_queue memory_group

abbrev Run : All → All → Type 0
Run = Reach readers memory_collection memory_queue memory_group

abbrev start : All
start = record {
  servers = record {
    postgres = empty_tables;
    redis = λ k. none;
    mongo = [];
    sqs = none;
    group = 0;
  };
  unwritten = [];
  had = empty_tables ∷ [];
}

-- Between two projections a query reads the order's row, and it writes the cache after the second
-- one's invalidation; then a second query runs.
abbrev late_write : (sh : All) × Run start sh
unfolding order_result find_order try_project project_to_postgres retry invalidate_cache project
    project_payload insert_order insert_item update_total item_row add_line update_order upsert_item
    sum_items select order_key processed_key
late_write = (
  _,
  get_order-Reach readers memory_collection memory_queue memory_group "o1" start _ (
      next
        (next
          (next (next (next here (attempt 100 created start)) (read "o1" _ _ refl))
            (attempt 101 filled _))
          (consumer_call (invalidate "o1") _))
        (write "o1" _ [] [] _ refl)),
)

Reach-HoldsShown_example :
    HoldsShown readers memory_collection memory_queue memory_group late_write.0 "o1"
Reach-HoldsShown_example =
    Reach-HoldsShown readers memory_collection memory_queue memory_group start late_write.0 "o1"
      refl refl (λ other. refl) late_write.1
