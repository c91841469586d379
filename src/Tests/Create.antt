-- ===== src/Tests/Create.antt =====
-- Creating an order twice, and a payment that is declined.
use event_sourcing_cqrs.Prelude.{ℕ, ◌≡◌, ◌≢◌, refl, some, [], ◌∷◌, ◌++◌}
use event_sourcing_cqrs.Exec.{ok}
use event_sourcing_cqrs.Exec.Retry.{retry}
use event_sourcing_cqrs.Schemas.{ProcessPaymentRequest, CommandResponse}
use event_sourcing_cqrs.EventStore.{append}
use event_sourcing_cqrs.EventStore.History.{new_document}
use event_sourcing_cqrs.Publisher.{publish, publish_once, send_and_mark, record_of, published_key}
use event_sourcing_cqrs.Commands.{create_order, create_new, record_event, process_payment}
use event_sourcing_cqrs.Commands.Legal.{docs_of}
use event_sourcing_cqrs.Commands.Payment.{process_payment_declined}
use event_sourcing_cqrs.Commands.Idempotency.{mapped, create_order_returns, create_order_twice}
use event_sourcing_cqrs.Tests.Scenario.{
  services, stamp_of, create_request, nothing_yet, created_world, confirmed_world, created,
}

abbrev answer_to_create : CommandResponse
answer_to_create = record {
  event_id = "e1";
  aggregate_id = "o1";
  aggregate_version = 1;
  message = "Order created";
}

create_order_returns_example :
    (docs_of services created_world ≡ [] ++ new_document created ∷ [])
    × (mapped services create_request created_world ≡ some "o1")
    × (answer_to_create.aggregate_id ≡ "o1")
    × (answer_to_create.aggregate_version ≡ 1)
unfolding create_order create_new record_event append publish publish_once send_and_mark retry
    record_of published_key
create_order_returns_example =
    create_order_returns services (stamp_of "e1" 10) "o1" create_request nothing_yet
      answer_to_create refl refl

create_order_twice_example :
    (docs_of services (create_order services (stamp_of "e9" 90) "o9" create_request created_world).1
      ≡ docs_of services created_world)
    × ((create_order services (stamp_of "e9" 90) "o9" create_request created_world).1.bus.kafka
        ≡ created_world.bus.kafka)
    × ((answer : CommandResponse)
        → (create_order services (stamp_of "e9" 90) "o9" create_request created_world).0 ≡ ok answer
        → answer.aggregate_id ≡ answer_to_create.aggregate_id)
unfolding create_order create_new record_event append publish publish_once send_and_mark retry
    record_of published_key
create_order_twice_example =
    create_order_twice services create_request (stamp_of "e1" 10) (stamp_of "e9" 90) "o1" "o9"
      nothing_yet answer_to_create refl refl refl

abbrev declined_request : ProcessPaymentRequest ℕ
declined_request = record { payment_id = "fail_1"; amount = 6; method = "card" }

process_payment_declined_example :
    (docs_of services
        (process_payment services (stamp_of "e4" 40) "o1" declined_request confirmed_world).1
      ≡ docs_of services confirmed_world)
    × ((process_payment services (stamp_of "e4" 40) "o1" declined_request confirmed_world).1.bus
        ≡ confirmed_world.bus)
    × ((response : CommandResponse)
        → (process_payment services (stamp_of "e4" 40) "o1" declined_request confirmed_world).0
          ≢ ok response)
process_payment_declined_example =
    process_payment_declined services (stamp_of "e4" 40) "o1" confirmed_world declined_request refl
