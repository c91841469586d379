-- ===== src/Tests/Views.antt =====
-- The read side: projections, and the consumer that makes them.
use event_sourcing_cqrs.Prelude.{ℕ, ◌≡◌, refl, select, true, some, none, List, [], ◌∷◌, arith}
use event_sourcing_cqrs.Events.{Event}
use event_sourcing_cqrs.Exec.{ok}
use event_sourcing_cqrs.Exec.Retry.{retry}
use event_sourcing_cqrs.Aggregate.{OrderAggregate, rebuild_from_events}
use event_sourcing_cqrs.Aggregate.Lifecycle.{standing, advance, lifecycle}
use event_sourcing_cqrs.Events.{paid}
use event_sourcing_cqrs.ReadModel.{Tables, find_order, update_order, upsert_item, sum_items}
use event_sourcing_cqrs.Projection.{
  project, project_payload, insert_order, insert_item, update_total, item_row, add_line,
}
use event_sourcing_cqrs.Projection.Agreement.{Shows}
use event_sourcing_cqrs.Projection.Frame.{Untouched, project-Untouched}
use event_sourcing_cqrs.Projection.Refinement.{project_all, events_of, project_all-agrees}
use event_sourcing_cqrs.Publisher.{Message, KafkaRecord, record_of}
use event_sourcing_cqrs.Consumer.{
  Sinks, Stage, consume, project_to_postgres, handle_value, project_message, try_project,
  invalidate_cache, order_key, processed_key,
}
use event_sourcing_cqrs.Consumer.Attempts.{AtMostOnce, project_to_postgres-AtMostOnce}
use event_sourcing_cqrs.Projection.Validity.{IsWellFormed}
use event_sourcing_cqrs.Consumer.Loop.{AllHandled, consume_returns}
use event_sourcing_cqrs.Consumer.Constraints.{consume-IsWellFormed}
use event_sourcing_cqrs.Tests.Memory.{
  whole_floats, whole_numerics, memory_postgres, memory_redis, memory_collection, memory_queue,
  memory_group,
}
use event_sourcing_cqrs.Tests.Scenario.{created, filled, agreed, settled}

abbrev pub empty_tables : Tables ℕ
empty_tables = record { orders = []; order_items = [] }

abbrev timed : List (ℕ × Event ℕ)
timed = (101, filled) ∷ (102, agreed) ∷ (103, settled) ∷ []

abbrev pub tables_after : List (ℕ × Event ℕ) → Tables ℕ
tables_after [] = empty_tables
tables_after (p ∷ ps) = elim (project_all whole_numerics (p ∷ ps) empty_tables) [
  | none ↦ empty_tables
  | some t ↦ t
]

-- The four events of the order, each in its own transaction.
project_all-agrees_example :
    (agg : OrderAggregate ℕ) × (rebuild_from_events whole_floats (created ∷ events_of timed)
      ≡ ok agg)
    × Shows (tables_after ((100, created) ∷ timed)) "o1" agg
unfolding lifecycle advance find_order project_all project project_payload insert_order insert_item
    update_total item_row add_line update_order upsert_item sum_items select
project_all-agrees_example =
    project_all-agrees whole_floats whole_numerics 100 created timed (standing paid true, 4)
      empty_tables (tables_after ((100, created) ∷ timed)) (refl, (refl, (refl, tt))) refl refl refl

project-Untouched_example :
    Untouched "o2"
      (tables_after ((100, created) ∷ []))
      (tables_after ((100, created) ∷ (101, filled) ∷ []))
unfolding find_order project_all project project_payload insert_order insert_item update_total
    item_row add_line update_order upsert_item sum_items select
project-Untouched_example =
    project-Untouched whole_numerics 101 filled "o2" (tables_after ((100, created) ∷ []))
      (tables_after ((100, created) ∷ (101, filled) ∷ [])) refl refl

abbrev pub sinks : Sinks ℕ ℕ
sinks = record {
  numeric = whole_numerics;
  postgres = memory_postgres;
  redis = memory_redis;
  mongo = memory_collection;
  sqs = memory_queue;
  group = memory_group;
}

abbrev pub before_round : Stage sinks
before_round = record {
  postgres = tables_after ((100, created) ∷ []);
  redis = λ k. none;
  mongo = [];
  sqs = none;
  group = 1;
}

abbrev arrived : Message ℕ
arrived = record { event = filled; retry_count = none }

project_to_postgres-AtMostOnce_example :
    AtMostOnce sinks 101 filled before_round.postgres
      (project_to_postgres sinks 101 filled before_round.postgres).1
project_to_postgres-AtMostOnce_example =
    project_to_postgres-AtMostOnce sinks 101 filled before_round.postgres

abbrev pub two_records : List (ℕ × KafkaRecord ℕ)
two_records = (101, record_of filled) ∷ (102, record_of agreed) ∷ []

consume_returns_example :
    ((consume sinks 1 two_records before_round).1.group ≡ 3)
    × AllHandled sinks two_records before_round (consume sinks 1 two_records before_round).1
unfolding consume record_of handle_value project_message try_project project_to_postgres retry
    project project_payload add_line item_row insert_item find_order project_all insert_order
    update_total sum_items select upsert_item invalidate_cache order_key processed_key update_order
consume_returns_example = consume_returns sinks 1 two_records before_round refl refl

one_created-IsWellFormed : IsWellFormed whole_numerics before_round.postgres
unfolding find_order project_all project project_payload insert_order sum_items select
one_created-IsWellFormed = record {
  unique_orders = (refl, tt);
  unique_items = tt;
  owned = tt;
  totals = λ oid row found. ground (arith, found);
}

consume-IsWellFormed_example :
    IsWellFormed whole_numerics (consume sinks 1 two_records before_round).1.postgres
consume-IsWellFormed_example =
    consume-IsWellFormed sinks 1 two_records before_round one_created-IsWellFormed
