-- ===== src/Tests/Scenario.antt =====
-- An order in memory: created, filled, confirmed and paid by the handlers themselves.
use event_sourcing_cqrs.Prelude.{ℕ, String, none, []}
use event_sourcing_cqrs.Events.{
  Stamp, Event, LineItem, Payload, creation, item, confirmation, payment,
}
use event_sourcing_cqrs.Schemas.{
  CreateOrderRequest, AddItemRequest, ProcessPaymentRequest, ShipOrderRequest, CancelOrderRequest,
}
use event_sourcing_cqrs.Commands.{
  Services, World, create_order, add_item, confirm_order, process_payment,
}
use event_sourcing_cqrs.EventStore.{EventCollection}
use event_sourcing_cqrs.Publisher.{Topic}
use event_sourcing_cqrs.Tests.Memory.{whole_floats, memory_collection, memory_redis, memory_topic}

abbrev pub store : EventCollection ℕ
store = memory_collection

abbrev pub topic : Topic ℕ
topic = memory_topic

abbrev pub services : Services ℕ
services = record { float = whole_floats; mongo = store; redis = memory_redis; kafka = topic }

abbrev pub stamp_of : String → ℕ → Stamp
stamp_of event_id now = record {
  event_id = event_id;
  correlation_id = "trace";
  occurred_at = now;
  now = now;
}

abbrev pub create_request : CreateOrderRequest
create_request = record {
  customer_id = "ann";
  customer_email = "ann@example.org";
  idempotency_key = "key-1";
}

abbrev pub item_request : AddItemRequest ℕ
item_request = record { product_id = "pen"; product_name = "Pen"; quantity = 3; unit_price = 2 }

abbrev pub payment_request : ProcessPaymentRequest ℕ
payment_request = record { payment_id = "pay_1"; amount = 6; method = "card" }

abbrev pub ship_request : ShipOrderRequest
ship_request = record { tracking_id = "T-1"; carrier = "Post" }

abbrev pub cancel_request : CancelOrderRequest
cancel_request = record { reason = "changed mind" }

abbrev pub nothing_yet : World services
nothing_yet = record { mongo = []; bus = record { redis = λ k. none; kafka = [] } }

abbrev pub created_world : World services
created_world = (create_order services (stamp_of "e1" 10) "o1" create_request nothing_yet).1

abbrev pub filled_world : World services
filled_world = (add_item services (stamp_of "e2" 20) "o1" item_request created_world).1

abbrev pub confirmed_world : World services
confirmed_world = (confirm_order services (stamp_of "e3" 30) "o1" filled_world).1

abbrev pub paid_world : World services
paid_world = (process_payment services (stamp_of "e4" 40) "o1" payment_request confirmed_world).1

-- The events of that order.
abbrev pub event_at : String → ℕ → ℕ → Payload ℕ → Event ℕ
event_at event_id version now payload = record {
  event_id = event_id;
  aggregate_id = "o1";
  aggregate_version = version;
  occurred_at = now;
  correlation_id = "trace";
  payload = payload;
}

abbrev pub pens : LineItem ℕ
pens = record {
  product_id = "pen";
  product_name = "Pen";
  quantity = 3;
  unit_price = 2;
  line_total = 6;
}

abbrev pub created : Event ℕ
created = event_at "e1" 1 10 (creation "ann" "ann@example.org" [] 0)

abbrev pub filled : Event ℕ
filled = event_at "e2" 2 20 (item pens)

abbrev pub agreed : Event ℕ
agreed = event_at "e3" 3 30 (confirmation 30)

abbrev pub settled : Event ℕ
settled = event_at "e4" 4 40 (payment "pay_1" 6 "card" 40)
