-- ===== src/Commands.antt =====
-- api/routers/command_router.py: the write side. A handler works on the event store and, through
-- the publisher, on Redis and Kafka.
pub mod Load
pub mod Legal
pub mod Recorded
pub mod Dispatch
pub mod Payment
pub mod Idempotency
pub mod Handlers
pub mod Create
pub mod Race
use Prim.Native.String.{◌++◌}
use event_sourcing_cqrs.Prelude.{
  ℕ, suc, ◌+◌, String, Bool, true, false, Option, none, some, List, [], ◌∷◌, map, str_eq,
  if◌then◌else◌,
}
use event_sourcing_cqrs.Float.{Float}
use event_sourcing_cqrs.Events.{
  Event, Stamp, order_created_event, order_item_added_event, order_confirmed_event,
  order_payment_processed_event, order_shipped_event, order_cancelled_event,
}
use event_sourcing_cqrs.Exec.{
  Exec, Result, ok, err, order_not_found, payment_failed, unprocessable, pure, raise, lift, ◌>>=◌,
  ◌>>◌,
}
use event_sourcing_cqrs.Services.Redis.{Redis}
use event_sourcing_cqrs.EventStore.{
  Document, EventCollection, append, get_events, get_latest_version,
}
use event_sourcing_cqrs.Publisher.{Topic, Bus, on_redis, publish}
use event_sourcing_cqrs.PaymentGateway.{ChargeResult, success, failure, charge}
use event_sourcing_cqrs.Aggregate.{
  OrderAggregate, rebuild_from_events, assert_can_add_item, assert_can_confirm, assert_can_pay,
  assert_can_ship, assert_can_cancel,
}
use event_sourcing_cqrs.Schemas.{
  CreateOrderRequest, AddItemRequest, ProcessPaymentRequest, ShipOrderRequest, CancelOrderRequest,
  CommandResponse, accepts_item, accepts_payment,
}

-- The services that the handlers are given.
pub record Services (F : Type 0) : Type 1 where
  pub float : Float F
  pub mongo : EventCollection F
  pub redis : Redis
  pub kafka : Topic F

-- The state of the services that commands touch.
pub record World {F : Type 0} (sv : Services F) : Type 0 where
  pub mongo : sv.mongo.State
  pub bus : Bus sv.redis.State sv.kafka.State

module _ {F A : Type 0} {sv : Services F} where
  abbrev pub on_store : Exec sv.mongo.State A → Exec (World sv) A
  on_store m w = let (r, s) = m w.mongo in (r, record { mongo = s; bus = w.bus })

  abbrev pub on_bus : Exec (Bus sv.redis.State sv.kafka.State) A → Exec (World sv) A
  on_bus m w = let (r, b) = m w.bus in (r, record { mongo = w.mongo; bus = b })

module _ {F : Type 0} (sv : Services F) where
  -- The stored events of a document list; an order with none is a 404.
  abbrev pub rebuild_found : String → List (Document F) → Result (OrderAggregate F)
  rebuild_found order_id [] = err (order_not_found order_id)
  rebuild_found order_id (d ∷ ds) = rebuild_from_events sv.float (map (λ x. x.event) (d ∷ ds))

  -- `_load_aggregate`
  unfoldable pub load_aggregate : String → Exec (World sv) (OrderAggregate F)
  load_aggregate order_id = do
    events ← on_store (get_events sv.mongo order_id)
    lift (rebuild_found order_id events)

  -- What every handler does with its new event: append, publish, respond.
  unfoldable pub record_event : Event F → String → Exec (World sv) CommandResponse
  record_event event message = do
    on_store (append sv.mongo event)
    on_bus (publish sv.redis sv.kafka event)
    pure (record {
      event_id = event.event_id;
      aggregate_id = event.aggregate_id;
      aggregate_version = event.aggregate_version;
      message = message;
    })

  -- The order id that the idempotency key is mapped to; an empty value counts as none.
  abbrev pub cached_order : Option String → Option String
  cached_order none = none
  cached_order (some order_id) = if str_eq order_id "" then none else some order_id

  abbrev pub idem_cache_key : CreateOrderRequest → String
  idem_cache_key req = "idem:create:" ++ req.idempotency_key

  -- The answer to a key that is mapped already.
  unfoldable pub respond_cached : String → Exec (World sv) CommandResponse
  respond_cached order_id = do
    version ← on_store (get_latest_version sv.mongo order_id)
    pure (record {
      event_id = "cached";
      aggregate_id = order_id;
      aggregate_version = version;
      message = "Order already created (idempotent)";
    })

  -- `uuid4()` gives `order_id`.
  unfoldable pub create_new : Stamp → String → CreateOrderRequest → Exec (World sv) CommandResponse
  create_new stamp order_id req = do
    response ←
        record_event
          (order_created_event sv.float stamp order_id req.customer_id req.customer_email)
          "Order created"
    on_bus (on_redis (sv.redis.setex (idem_cache_key req) 86400 order_id))
    pure response

  -- A mapped key is answered from the store; any other key makes a new order.
  abbrev pub create_unless_cached :
      Stamp → String → CreateOrderRequest → Option String → Exec (World sv) CommandResponse
  create_unless_cached stamp order_id req (some known) = respond_cached known
  create_unless_cached stamp order_id req none = create_new stamp order_id req

  unfoldable pub create_order :
      Stamp → String → CreateOrderRequest → Exec (World sv) CommandResponse
  create_order stamp order_id req = do
    cached ← on_bus (on_redis (sv.redis.get (idem_cache_key req)))
    create_unless_cached stamp order_id req (cached_order cached)

  unfoldable pub add_item : Stamp → String → AddItemRequest F → Exec (World sv) CommandResponse
  add_item stamp order_id req =
      if accepts_item sv.float req
      then (do
        agg ← load_aggregate order_id
        lift (assert_can_add_item agg)
        record_event
            (order_item_added_event sv.float stamp order_id (agg.version + 1) req.product_id
              req.product_name req.quantity req.unit_price)
            ("Item " ++ req.product_name ++ " added"))
      else raise unprocessable

  unfoldable pub confirm_order : Stamp → String → Exec (World sv) CommandResponse
  confirm_order stamp order_id = do
    agg ← load_aggregate order_id
    lift (assert_can_confirm agg)
    record_event (order_confirmed_event stamp order_id (agg.version + 1)) "Order confirmed"

  -- A declined payment is a 402.
  abbrev pub require_success : ChargeResult → Result (Unit {0})
  require_success (success _) = ok tt
  require_success (failure error) = err (payment_failed error)

  unfoldable pub process_payment :
      Stamp → String → ProcessPaymentRequest F → Exec (World sv) CommandResponse
  process_payment stamp order_id req =
      if accepts_payment sv.float req
      then (do
        agg ← load_aggregate order_id
        lift (assert_can_pay agg)
        lift (require_success (charge req.payment_id req.amount req.method))
        record_event
            (order_payment_processed_event stamp order_id (agg.version + 1) req.payment_id
              req.amount req.method)
            "Payment processed")
      else raise unprocessable

  unfoldable pub ship_order : Stamp → String → ShipOrderRequest → Exec (World sv) CommandResponse
  ship_order stamp order_id req = do
    agg ← load_aggregate order_id
    lift (assert_can_ship agg)
    record_event (order_shipped_event stamp order_id (agg.version + 1) req.tracking_id req.carrier)
        ("Order shipped via " ++ req.carrier)

  unfoldable pub cancel_order :
      Stamp → String → CancelOrderRequest → Exec (World sv) CommandResponse
  cancel_order stamp order_id req = do
    agg ← load_aggregate order_id
    lift (assert_can_cancel agg)
    record_event (order_cancelled_event stamp order_id (agg.version + 1) req.reason)
        "Order cancelled"
