-- ===== src/Tests/Once.antt =====
-- Three records for the consumer of consumers/main.py, of which the last is the first once more.
use event_sourcing_cqrs.Prelude.{ℕ, ◌≡◌, refl, select, some, inl, inr, List, [], ◌∷◌}
use event_sourcing_cqrs.Events.{Event}
use event_sourcing_cqrs.Exec.Retry.{retry}
use event_sourcing_cqrs.ReadModel.{find_order, update_order, upsert_item, sum_items}
use event_sourcing_cqrs.Projection.{
  project, project_payload, insert_order, insert_item, update_total, item_row, add_line,
}
use event_sourcing_cqrs.Projection.Refinement.{project_all}
use event_sourcing_cqrs.Publisher.{KafkaRecord, record_of}
use event_sourcing_cqrs.Consumer.{
  consume, project_to_postgres, handle_value, project_message, try_project, invalidate_cache,
  order_key, processed_key,
}
use event_sourcing_cqrs.Consumer.Redelivery.{AllGoWell}
use event_sourcing_cqrs.Consumer.ExactlyOnce.{new_events, consume-new_events}
use event_sourcing_cqrs.Tests.Memory.{whole_numerics}
use event_sourcing_cqrs.Tests.Scenario.{filled, agreed}
use event_sourcing_cqrs.Tests.Views.{sinks, before_round}

abbrev records : List (ℕ × KafkaRecord ℕ)
records = (101, record_of filled) ∷ (102, record_of agreed) ∷ (103, record_of filled) ∷ []

abbrev once_each : List (ℕ × Event ℕ)
once_each = (101, filled) ∷ (102, agreed) ∷ []

records-AllGoWell : AllGoWell sinks 1 records before_round
unfolding record_of handle_value project_message try_project project_to_postgres retry project
    project_payload add_line item_row insert_item find_order project_all insert_order update_total
    sum_items select upsert_item invalidate_cache order_key processed_key update_order
records-AllGoWell = ((refl, refl, inr refl), ((refl, refl, inr refl), ((refl, refl, inl refl), tt)))

consume-new_events_example :
    project_all whole_numerics once_each before_round.postgres
    ≡ some (consume sinks 1 records before_round).1.postgres
unfolding record_of new_events processed_key
consume-new_events_example = consume-new_events sinks 1 records before_round records-AllGoWell
