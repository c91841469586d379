-- ===== src/Schemas.antt =====
-- api/models/schemas.py: the bodies of the commands and their response, and what the queries
-- answer. A body that the schema refuses never reaches a handler; a negative `quantity` is refused
-- as 0 is.
use event_sourcing_cqrs.Prelude.{ℕ, String, Bool, Option, List, ◌&&◌, ltb}
use event_sourcing_cqrs.Float.{Float}
use event_sourcing_cqrs.Events.{EventType, Payload}

pub record CreateOrderRequest : Type 0 where
  pub customer_id : String
  pub customer_email : String
  pub idempotency_key : String

pub record AddItemRequest (F : Type 0) : Type 0 where
  pub product_id : String
  pub product_name : String
  pub quantity : ℕ
  pub unit_price : F

pub record ProcessPaymentRequest (F : Type 0) : Type 0 where
  pub payment_id : String
  pub amount : F
  pub method : String

pub record ShipOrderRequest : Type 0 where
  pub tracking_id : String
  pub carrier : String

pub record CancelOrderRequest : Type 0 where
  pub reason : String

pub record CommandResponse : Type 0 where
  pub event_id : String
  pub aggregate_id : String
  pub aggregate_version : ℕ
  pub message : String

-- A line of an order, as a query shows it.
pub record OrderItemView (F : Type 0) : Type 0 where
  pub product_id : String
  pub product_name : String
  pub quantity : ℕ
  pub unit_price : F
  pub line_total : F

-- An order, as a query shows it.
pub record OrderView (F : Type 0) : Type 0 where
  pub order_id : String
  pub customer_id : String
  pub customer_email : String
  pub status : String
  pub items : List (OrderItemView F)
  pub total_amount : F
  pub version : ℕ
  pub created_at : Option F
  pub updated_at : Option F
  pub payment_id : Option String
  pub tracking_id : Option String

-- An event, as the audit trail shows it.
pub record EventHistoryItem (F : Type 0) : Type 0 where
  pub event_id : String
  pub event_type : EventType
  pub aggregate_version : ℕ
  pub occurred_at : ℕ
  pub payload : Payload F
  pub correlation_id : String

module _ {F : Type 0} (float : Float F) where
  -- The constraints `gt=0` of the two schemas that have them.
  abbrev pub accepts_item : AddItemRequest F → Bool
  accepts_item req = ltb 0 req.quantity && float.is_pos req.unit_price

  abbrev pub accepts_payment : ProcessPaymentRequest F → Bool
  accepts_payment req = float.is_pos req.amount
