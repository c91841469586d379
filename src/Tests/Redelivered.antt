-- ===== src/Tests/Redelivered.antt =====
-- Two records that the consumer of consumers/main.py is given, and then the first of them twice more
-- and the second once more.
use event_sourcing_cqrs.Prelude.{ℕ, refl, select, inr, List, [], ◌∷◌, Memᴰ}
use event_sourcing_cqrs.Exec.Retry.{retry}
use event_sourcing_cqrs.ReadModel.{find_order, update_order, upsert_item, sum_items}
use event_sourcing_cqrs.Projection.{
  project, project_payload, insert_order, insert_item, update_total, item_row, add_line,
}
use event_sourcing_cqrs.Projection.Refinement.{project_all}
use event_sourcing_cqrs.Publisher.{KafkaRecord, record_of}
use event_sourcing_cqrs.Consumer.{
  consume, project_to_postgres, handle_value, project_message, try_project, invalidate_cache,
  order_key, processed_key,
}
use event_sourcing_cqrs.Consumer.Redelivery.{LeftAlone, AllGoWell, consume_again}
use event_sourcing_cqrs.Tests.Scenario.{filled, agreed}
use event_sourcing_cqrs.Tests.Views.{sinks, before_round, two_records}

abbrev three_records : List (ℕ × KafkaRecord ℕ)
three_records = (201, record_of filled) ∷ (202, record_of agreed) ∷ (203, record_of filled) ∷ []

two_records-AllGoWell : AllGoWell sinks 1 two_records before_round
unfolding record_of handle_value project_message try_project project_to_postgres retry project
    project_payload add_line item_row insert_item find_order project_all insert_order update_total
    sum_items select upsert_item invalidate_cache order_key processed_key update_order
two_records-AllGoWell = ((refl, refl, inr refl), ((refl, refl, inr refl), tt))

consume_again_example :
    LeftAlone sinks
      (consume sinks 1 two_records before_round).1
      (consume sinks 3 three_records (consume sinks 1 two_records before_round).1).1
unfolding record_of
consume_again_example =
    consume_again sinks 1 3 two_records three_records before_round two_records-AllGoWell
      (Memᴰ.head refl, (Memᴰ.tail (Memᴰ.head refl), (Memᴰ.head refl, tt)))
