-- ===== src/Aggregate.antt =====
-- api/services/aggregate.py: the order aggregate, rebuilt by replaying events, and its guards.
pub mod Order
pub mod Bags
pub mod Totals
pub mod Lifecycle
pub mod Histories
use event_sourcing_cqrs.Prelude.{
  ℕ, String, Bool, List, [], ◌∷◌, ◌++◌, Option, none, some, foldl, sort_by,
}
use event_sourcing_cqrs.Float.{Float}
use event_sourcing_cqrs.Events.{
  OrderStatus, pending, confirmed, paid, shipped, delivered, cancelled, LineItem, Payload, creation,
  item, confirmation, payment, shipment, delivery, cancellation, Event,
}
use event_sourcing_cqrs.Exec.{
  Result, ok, err, empty_event_list, cannot_add_item, cannot_confirm_empty, cannot_confirm,
  cannot_pay, cannot_ship, cannot_cancel,
}

pub record OrderAggregate (F : Type 0) : Type 0 where
  pub order_id : String
  pub version : ℕ
  pub status : OrderStatus
  pub customer_id : String
  pub customer_email : String
  pub items : List (LineItem F)
  pub total_amount : F
  pub payment_id : Option String
  pub tracking_id : Option String

module _ {F : Type 0} (float : Float F) where
  -- `OrderAggregate(order_id=...)`, the defaults of the fields.
  abbrev pub new_aggregate : String → OrderAggregate F
  new_aggregate order_id = record {
    order_id = order_id;
    version = 0;
    status = pending;
    customer_id = "";
    customer_email = "";
    items = [];
    total_amount = float.zero;
    payment_id = none;
    tracking_id = none;
  }

  -- the branches of `_apply` on the event's type
  unfoldable pub apply_payload : OrderAggregate F → Payload F → OrderAggregate F
  apply_payload agg (creation customer_id customer_email _ _) = record agg {
    customer_id = customer_id;
    customer_email = customer_email;
    status = pending;
  }
  apply_payload agg (item line) = record agg {
    items = agg.items ++ line ∷ [];
    total_amount = float.add agg.total_amount line.line_total;
  }
  apply_payload agg (confirmation _) = record agg { status = confirmed }
  apply_payload agg (payment payment_id _ _ _) = record agg {
    status = paid;
    payment_id = some payment_id;
  }
  apply_payload agg (shipment tracking_id _ _) = record agg {
    status = shipped;
    tracking_id = some tracking_id;
  }
  apply_payload agg delivery = record agg { status = delivered }
  apply_payload agg (cancellation _ _) = record agg { status = cancelled }

  -- `_apply`
  unfoldable pub apply : OrderAggregate F → Event F → OrderAggregate F
  unfolding apply_payload
  apply agg event = apply_payload (record agg { version = event.aggregate_version }) event.payload

  -- `rebuild_from_events`
  unfoldable pub rebuild_from_events : List (Event F) → Result (OrderAggregate F)
  rebuild_from_events [] = err empty_event_list
  rebuild_from_events (e ∷ es) =
      ok
        (foldl apply (new_aggregate e.aggregate_id) (sort_by (λ ev. ev.aggregate_version) (e ∷ es)))

module _ {F : Type 0} where
  unfoldable pub assert_can_add_item : OrderAggregate F → Result (Unit {0})
  assert_can_add_item agg = elim agg.status [
    | pending ↦ ok tt
    | other ↦ err (cannot_add_item other)
  ]

  unfoldable pub assert_can_confirm : OrderAggregate F → Result (Unit {0})
  assert_can_confirm agg = elim agg.items [
    | [] ↦ err cannot_confirm_empty
    | _ ∷ _ ↦ elim agg.status [ pending ↦ ok tt | other ↦ err (cannot_confirm other) ]
  ]

  unfoldable pub assert_can_pay : OrderAggregate F → Result (Unit {0})
  assert_can_pay agg = elim agg.status [ confirmed ↦ ok tt | other ↦ err (cannot_pay other) ]

  pub assert_can_ship : OrderAggregate F → Result (Unit {0})
  assert_can_ship agg = elim agg.status [ paid ↦ ok tt | other ↦ err (cannot_ship other) ]

  pub assert_can_cancel : OrderAggregate F → Result (Unit {0})
  assert_can_cancel agg = elim agg.status [
    | shipped ↦ err (cannot_cancel shipped)
    | delivered ↦ err (cannot_cancel delivered)
    | _ ↦ ok tt
  ]
