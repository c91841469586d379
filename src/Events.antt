-- ===== src/Events.antt =====
-- api/models/events.py: the domain events and their factories.
-- Clock readings are numbers, since the code only stores them; what `uuid4()` and `time.time()`
-- return is an argument, the `Stamp` of the call.
use event_sourcing_cqrs.Prelude.{ℕ, String, List, []}
use event_sourcing_cqrs.Float.{Float}

pub data EventType : Type 0 where
  order_created order_item_added order_confirmed order_payment_processed : EventType
  order_shipped order_delivered order_cancelled : EventType

-- `event_type.value`
abbrev pub type_value : EventType → String
type_value order_created = "ORDER_CREATED"
type_value order_item_added = "ORDER_ITEM_ADDED"
type_value order_confirmed = "ORDER_CONFIRMED"
type_value order_payment_processed = "ORDER_PAYMENT_PROCESSED"
type_value order_shipped = "ORDER_SHIPPED"
type_value order_delivered = "ORDER_DELIVERED"
type_value order_cancelled = "ORDER_CANCELLED"

pub data OrderStatus : Type 0 where
  pending confirmed paid shipped delivered cancelled : OrderStatus

-- A line of an order, as `item_added` payloads and the aggregate's `items` hold it.
pub record LineItem (F : Type 0) : Type 0 where
  pub product_id : String
  pub product_name : String
  pub quantity : ℕ
  pub unit_price : F
  pub line_total : F

-- The `payload` dictionaries, one constructor for the keys that each event type carries.
pub data Payload (F : Type 0) : Type 0 where
  creation : (customer_id customer_email : String) → List (LineItem F) → F → Payload F
  item : LineItem F → Payload F
  confirmation : (confirmed_at : ℕ) → Payload F
  payment : (payment_id : String) → F → (method : String) → (processed_at : ℕ) → Payload F
  shipment : (tracking_id carrier : String) → (shipped_at : ℕ) → Payload F
  delivery : Payload F
  cancellation : (reason : String) → (cancelled_at : ℕ) → Payload F

pub record Event (F : Type 0) : Type 0 where
  pub event_id : String
  pub aggregate_id : String
  pub aggregate_version : ℕ
  pub occurred_at : ℕ
  pub correlation_id : String
  pub payload : Payload F

abbrev pub payload_type : {F : Type 0} → Payload F → EventType
payload_type (creation _ _ _ _) = order_created
payload_type (item _) = order_item_added
payload_type (confirmation _) = order_confirmed
payload_type (payment _ _ _ _) = order_payment_processed
payload_type (shipment _ _ _) = order_shipped
payload_type delivery = order_delivered
payload_type (cancellation _ _) = order_cancelled

-- The `event_type` field.
abbrev pub event_type : {F : Type 0} → Event F → EventType
event_type e = payload_type e.payload

-- What the defaults `uuid4()` and `time.time()` give to one new event.
pub record Stamp : Type 0 where
  pub event_id : String
  pub correlation_id : String
  pub occurred_at : ℕ
  pub now : ℕ

-- `BaseEvent(...)` with the fields that have defaults filled from the stamp.
abbrev pub base_event : {F : Type 0} → Stamp → String → ℕ → Payload F → Event F
base_event stamp order_id version payload = record {
  event_id = stamp.event_id;
  aggregate_id = order_id;
  aggregate_version = version;
  occurred_at = stamp.occurred_at;
  correlation_id = stamp.correlation_id;
  payload = payload;
}

module _ {F : Type 0} (float : Float F) (stamp : Stamp) (order_id : String) where
  abbrev pub order_created_event : String → String → Event F
  order_created_event customer_id customer_email =
      base_event stamp order_id 1 (creation customer_id customer_email [] float.zero)

  abbrev pub order_item_added_event : ℕ → String → String → ℕ → F → Event F
  order_item_added_event version product_id product_name quantity unit_price =
      base_event stamp order_id version (
        item (record {
          product_id = product_id;
          product_name = product_name;
          quantity = quantity;
          unit_price = unit_price;
          line_total = float.times quantity unit_price;
        }))

module _ {F : Type 0} (stamp : Stamp) (order_id : String) (version : ℕ) where
  abbrev pub order_confirmed_event : Event F
  order_confirmed_event = base_event stamp order_id version (confirmation stamp.now)

  abbrev pub order_payment_processed_event : String → F → String → Event F
  order_payment_processed_event payment_id amount method =
      base_event stamp order_id version (payment payment_id amount method stamp.now)

  abbrev pub order_shipped_event : String → String → Event F
  order_shipped_event tracking_id carrier =
      base_event stamp order_id version (shipment tracking_id carrier stamp.now)

  abbrev pub order_cancelled_event : String → Event F
  order_cancelled_event reason = base_event stamp order_id version (cancellation reason stamp.now)
