-- ===== src/Tests/Write.antt =====
-- The write side on the services in memory.
use event_sourcing_cqrs.Prelude.{ℕ, ◌≡◌, ◌⊎◌, refl, List, map, [], ◌∷◌, select, insert_by, sort_by}
use event_sourcing_cqrs.Exec.{ok, err, order_not_found}
use event_sourcing_cqrs.Events.{order_confirmed_event}
use event_sourcing_cqrs.Exec.Retry.{retry}
use event_sourcing_cqrs.Aggregate.{
  rebuild_from_events, apply, apply_payload, assert_can_add_item, assert_can_confirm,
  assert_can_pay,
}
use event_sourcing_cqrs.PaymentGateway.{charge}
use event_sourcing_cqrs.Publisher.{publish, publish_once, send_and_mark, record_of, published_key}
use event_sourcing_cqrs.EventStore.{
  Document, version_key, append, get_events, set_expiry_for_aggregate, unexpired, of_aggregate,
}
use event_sourcing_cqrs.EventStore.History.{IsLegal, IsLegal-nil, history, new_document}
use event_sourcing_cqrs.EventStore.Append.{Appended, append-Appended}
use event_sourcing_cqrs.EventStore.Expiry.{set_expiry_for_aggregate_returns}
use event_sourcing_cqrs.Commands.{
  create_new, load_aggregate, record_event, create_order, add_item, confirm_order, process_payment,
  ship_order,
}
use event_sourcing_cqrs.Commands.Legal.{docs_of}
use event_sourcing_cqrs.Commands.Create.{create_order-IsLegal}
use event_sourcing_cqrs.Commands.Recorded.{Recorded}
use event_sourcing_cqrs.Commands.Dispatch.{
  items, confirm, payment, ship, run_command-Recorded, run_command-IsLegal,
}
use event_sourcing_cqrs.Queries.{history_item, get_order_events}
use event_sourcing_cqrs.Queries.Audit.{CountsFrom, get_order_events_returns}
use event_sourcing_cqrs.Tests.Scenario.{
  store, services, stamp_of, create_request, item_request, payment_request, ship_request,
  nothing_yet, created_world, filled_world, confirmed_world, paid_world, created, filled, agreed,
  settled,
}

created_world-IsLegal : IsLegal (docs_of services created_world)
unfolding history select
created_world-IsLegal =
    create_order-IsLegal services (stamp_of "e1" 10) "o1" create_request nothing_yet IsLegal-nil
      refl

filled_world-IsLegal : IsLegal (docs_of services filled_world)
filled_world-IsLegal =
    run_command-IsLegal services (stamp_of "e2" 20) "o1" (items item_request) created_world
      created_world-IsLegal

confirmed_world-IsLegal : IsLegal (docs_of services confirmed_world)
confirmed_world-IsLegal =
    run_command-IsLegal services (stamp_of "e3" 30) "o1" confirm filled_world filled_world-IsLegal

paid_world-IsLegal : IsLegal (docs_of services paid_world)
paid_world-IsLegal =
    run_command-IsLegal services (stamp_of "e4" 40) "o1" (payment payment_request) confirmed_world
      confirmed_world-IsLegal

-- The four handlers store their four events.
paid_run :
    docs_of services paid_world
    ≡ new_document created ∷ new_document filled ∷ new_document agreed ∷ new_document settled ∷ []
unfolding process_payment confirm_order add_item create_order create_new load_aggregate record_event
    get_events append publish publish_once send_and_mark retry rebuild_from_events apply
    apply_payload assert_can_add_item assert_can_confirm assert_can_pay charge record_of
    published_key sort_by insert_by select
paid_run = refl

run_command-Recorded_example :
    Recorded "o1"
      (docs_of services paid_world)
      (ship_order services (stamp_of "f5" 50) "o1" ship_request paid_world).0
      (docs_of services (ship_order services (stamp_of "f5" 50) "o1" ship_request paid_world).1)
run_command-Recorded_example =
    run_command-Recorded services (stamp_of "f5" 50) "o1" (ship ship_request) paid_world
      paid_world-IsLegal

abbrev confirmed_docs : List (Document ℕ)
confirmed_docs = new_document created ∷ new_document filled ∷ new_document agreed ∷ []

confirmed_run : docs_of services confirmed_world ≡ confirmed_docs
unfolding confirm_order add_item create_order create_new load_aggregate record_event get_events
    append publish publish_once send_and_mark retry rebuild_from_events apply apply_payload
    assert_can_add_item assert_can_confirm record_of published_key sort_by insert_by select
confirmed_run = refl

append-Appended_example :
    Appended store
      (order_confirmed_event (stamp_of "f3" 50) "o1" 3)
      confirmed_docs
      (append store (order_confirmed_event (stamp_of "f3" 50) "o1" 3) confirmed_docs).0
      (append store (order_confirmed_event (stamp_of "f3" 50) "o1" 3) confirmed_docs).1
append-Appended_example =
    append-Appended store (order_confirmed_event (stamp_of "f3" 50) "o1" 3) confirmed_docs

get_order_events_returns_example :
    (select (of_aggregate "o1") confirmed_docs ≡ [])
      × ((get_order_events store "o1" confirmed_docs).0 ≡ err (order_not_found "o1"))
    ⊎ (((get_order_events store "o1" confirmed_docs).0
          ≡ ok (map history_item (select (of_aggregate "o1") confirmed_docs)))
        × CountsFrom 1 (map history_item (select (of_aggregate "o1") confirmed_docs)))
unfolding get_events
get_order_events_returns_example =
    get_order_events_returns store "o1" confirmed_docs
      (rw (← confirmed_run) confirmed_world-IsLegal)
      (sort_by version_key (select (of_aggregate "o1") confirmed_docs)) refl

set_expiry_for_aggregate_returns_example :
    (history "o1" (set_expiry_for_aggregate store 7 "o1" confirmed_docs).1
      ≡ history "o1" confirmed_docs)
    × (history "o1"
          (unexpired 2592000000007 (set_expiry_for_aggregate store 7 "o1" confirmed_docs).1)
        ≡ [])
    × (history "o2"
          (unexpired 2592000000007 (set_expiry_for_aggregate store 7 "o1" confirmed_docs).1)
        ≡ history "o2" (unexpired 2592000000007 confirmed_docs))
unfolding set_expiry_for_aggregate
set_expiry_for_aggregate_returns_example =
    set_expiry_for_aggregate_returns store 7 2592000000007 "o1" "o2" confirmed_docs refl refl
