-- ===== src/Tests/Recovered.antt =====
-- An event that was refused once: the handler publishes it again, and the consumer projects it.
use event_sourcing_cqrs.Prelude.{ℕ, ◌≡◌, arith, refl, select, none, [], ◌∷◌, ◌++◌}
use event_sourcing_cqrs.Exec.{ok}
use event_sourcing_cqrs.Exec.Retry.{retry}
use event_sourcing_cqrs.ReadModel.{find_order, update_order, upsert_item, sum_items}
use event_sourcing_cqrs.Projection.{
  project, project_payload, insert_order, insert_item, update_total, item_row, add_line,
}
use event_sourcing_cqrs.Projection.Refinement.{project_all}
use event_sourcing_cqrs.Publisher.{KafkaRecord}
use event_sourcing_cqrs.Consumer.{
  project_to_postgres, try_project, invalidate_cache, order_key, processed_key, handle_record,
}
use event_sourcing_cqrs.Consumer.ExactlyOnce.{Projected}
use event_sourcing_cqrs.RetryHandler.{handle_message, retry_record, publish_to_kafka_via_proxy}
use event_sourcing_cqrs.RetryHandler.Recovery.{returned, recovers}
use event_sourcing_cqrs.Tests.Poison.{outlets, refusal, posted, no_counts, after_trips}
use event_sourcing_cqrs.Tests.Scenario.{filled}
use event_sourcing_cqrs.Tests.Views.{sinks, before_round}

recovers_example :
    (sent : KafkaRecord ℕ) × ((handle_message outlets
        (returned (after_trips 1) refusal "second")
        no_counts
        (posted 1)).1.kafka
      ≡ [] ++ sent ∷ [])
    × ((handle_record sinks 205 7 sent before_round).0 ≡ ok tt)
    × Projected sinks 205 filled before_round (handle_record sinks 205 7 sent before_round).1
unfolding retry_record publish_to_kafka_via_proxy project_to_postgres try_project invalidate_cache
    order_key processed_key retry project project_payload add_line item_row insert_item find_order
    project_all insert_order update_total sum_items select upsert_item update_order
recovers_example =
    recovers sinks outlets (after_trips 1) refusal "second" no_counts (posted 1) 205 7 before_round
      (omega arith) (record { status = 200; error_code = none }) refl refl refl refl refl refl
