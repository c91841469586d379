-- ===== src/Tests/CaughtUp.antt =====
-- An order from its two events to the answer of a query, with a query in between.
use event_sourcing_cqrs.Prelude.{ℕ, ◌≡◌, refl, none, [], ◌∷◌, true, select, some-injective, inl}
use event_sourcing_cqrs.Events.{Event, pending}
use event_sourcing_cqrs.Exec.{ok}
use event_sourcing_cqrs.Exec.Retry.{retry}
use event_sourcing_cqrs.Aggregate.{OrderAggregate, rebuild_from_events}
use event_sourcing_cqrs.Aggregate.Lifecycle.{standing, advance, lifecycle}
use event_sourcing_cqrs.ReadModel.{find_order, update_order, upsert_item, sum_items}
use event_sourcing_cqrs.Projection.{
  project, project_payload, insert_order, insert_item, update_total, item_row, add_line,
}
use event_sourcing_cqrs.Consumer.{
  Stage, order_key, processed_key, try_project, project_to_postgres, invalidate_cache,
}
use event_sourcing_cqrs.Queries.{OrderResult, order_result, view_of, get_order, read_order}
use event_sourcing_cqrs.Queries.Answers.{RowReadsBack}
use event_sourcing_cqrs.Queries.CatchUp.{
  CatchesUp, idle, projected, asked, asked_of, servers, Reflects, get_order-Reflects,
}
use event_sourcing_cqrs.Tests.Memory.{whole_floats, memory_collection, memory_queue, memory_group}
use event_sourcing_cqrs.Tests.Scenario.{created, filled}
use event_sourcing_cqrs.Tests.Views.{empty_tables}
use event_sourcing_cqrs.Tests.Reads.{readers, answer}

abbrev Here : Type 0
Here = Stage (servers whole_floats readers memory_collection memory_queue memory_group "o1")

abbrev nothing_known : Here
nothing_known = record {
  postgres = empty_tables;
  redis = λ k. none;
  mongo = [];
  sqs = none;
  group = 0;
}

abbrev step : ℕ → ℕ → Event ℕ → Here → Here
step now n e s =
    (try_project (servers whole_floats readers memory_collection memory_queue memory_group "o1") now
      n e s).1

abbrev query : Here → Here
query s = asked_of whole_floats readers memory_collection memory_queue memory_group "o1" "o1" s

abbrev known : Here
known = step 101 2 filled (query (step 100 1 created nothing_known))

both_events :
    CatchesUp whole_floats readers memory_collection memory_queue memory_group "o1"
      (created ∷ filled ∷ [])
      nothing_known
      known
unfolding try_project project_to_postgres retry invalidate_cache project project_payload
    insert_order insert_item update_total item_row add_line find_order update_order upsert_item
    sum_items select get_order read_order order_result order_key processed_key
both_events = projected 100 1 created (filled ∷ []) nothing_known known refl refl (
    asked "o1" (filled ∷ []) (step 100 1 created nothing_known) known (
      projected 101 2 filled [] (query (step 100 1 created nothing_known)) known refl refl
        (idle known)))

known-RowReadsBack : RowReadsBack readers "o1" known.postgres
unfolding try_project project_to_postgres retry invalidate_cache project project_payload
    insert_order insert_item update_total item_row add_line find_order update_order upsert_item
    sum_items select get_order read_order order_result order_key processed_key
known-RowReadsBack plan result h = rw (← some-injective _ _ h) (refl, refl)

get_order-Reflects_example :
    (agg : OrderAggregate ℕ) × (result : OrderResult ℕ ℕ) × (rebuild_from_events whole_floats
        (created ∷ filled ∷ [])
      ≡ ok agg)
    × (answer ≡ readers.respond (view_of readers result))
    × Reflects result agg
unfolding lifecycle advance try_project project_to_postgres retry invalidate_cache project
    project_payload insert_order insert_item update_total item_row add_line find_order update_order
    upsert_item sum_items select get_order read_order order_result order_key processed_key
get_order-Reflects_example =
    get_order-Reflects whole_floats readers memory_collection memory_queue memory_group "o1" created
      (filled ∷ []) nothing_known known (standing pending true, 2) answer refl refl refl
      (λ oid. inl refl) both_events known-RowReadsBack refl
