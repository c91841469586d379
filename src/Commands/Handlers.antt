-- ===== src/Commands/Handlers.antt =====
-- What each handler that changes an order records, however it ends: with a response, with an
-- exception of its own, or with one of a service.
use event_sourcing_cqrs.Prelude.{String, refl, inl, inr, arith, Bool-cases}
use event_sourcing_cqrs.Events.{Stamp}
use event_sourcing_cqrs.Aggregate.{
  assert_can_add_item, assert_can_confirm, assert_can_pay, assert_can_ship, assert_can_cancel,
}
use event_sourcing_cqrs.Aggregate.Lifecycle.{guards_decide}
use event_sourcing_cqrs.EventStore.History.{IsLegal}
use event_sourcing_cqrs.Schemas.{
  AddItemRequest, ProcessPaymentRequest, ShipOrderRequest, CancelOrderRequest, accepts_item,
  accepts_payment,
}
use event_sourcing_cqrs.PaymentGateway.{charge}
use event_sourcing_cqrs.Commands.{
  Services, World, add_item, confirm_order, process_payment, ship_order, cancel_order,
  require_success,
}
use event_sourcing_cqrs.Commands.Legal.{docs_of}
use event_sourcing_cqrs.Commands.Recorded.{
  Records, unchanged, load_then-Recorded, guard_then-Recorded, guarded-Recorded,
}

module _ {F : Type 0} (sv : Services F) (stamp : Stamp) (order_id : String) (w : World sv)
    (legal : IsLegal (docs_of sv w)) where
  pub confirm_order-Recorded :
      Records sv order_id (docs_of sv w) (confirm_order sv stamp order_id) w
  unfolding confirm_order
  confirm_order-Recorded = load_then-Recorded sv order_id w _ legal λ agg w' same loaded.
      guard_then-Recorded sv order_id (assert_can_confirm agg) _ w' _ same
        (guarded-Recorded sv order_id stamp _ _ _ agg _ w' same loaded (guards_decide agg).1)

  pub ship_order-Recorded :
      (req : ShipOrderRequest)
      → Records sv order_id (docs_of sv w) (ship_order sv stamp order_id req) w
  unfolding ship_order
  ship_order-Recorded req = load_then-Recorded sv order_id w _ legal λ agg w' same loaded.
      guard_then-Recorded sv order_id (assert_can_ship agg) _ w' _ same
        (guarded-Recorded sv order_id stamp _ _ _ agg _ w' same loaded (guards_decide agg).3)

  pub cancel_order-Recorded :
      (req : CancelOrderRequest)
      → Records sv order_id (docs_of sv w) (cancel_order sv stamp order_id req) w
  unfolding cancel_order
  cancel_order-Recorded req = load_then-Recorded sv order_id w _ legal λ agg w' same loaded.
      guard_then-Recorded sv order_id (assert_can_cancel agg) _ w' _ same
        (guarded-Recorded sv order_id stamp _ _ _ agg _ w' same loaded (guards_decide agg).4)

  pub add_item-Recorded :
      (req : AddItemRequest F)
      → Records sv order_id (docs_of sv w) (add_item sv stamp order_id req) w
  unfolding add_item
  add_item-Recorded req = elim (Bool-cases (accepts_item sv.float req)) [
    | inl accepted ↦ rw accepted (
        load_then-Recorded sv order_id w _ legal λ agg w' same loaded.
          guard_then-Recorded sv order_id (assert_can_add_item agg) _ w' _ same
            (guarded-Recorded sv order_id stamp _ _ _ agg _ w' same loaded (guards_decide agg).0))
    | inr refused ↦ rw refused (unchanged refl λ response h. ground (arith, h))
  ]

  pub process_payment-Recorded :
      (req : ProcessPaymentRequest F)
      → Records sv order_id (docs_of sv w) (process_payment sv stamp order_id req) w
  unfolding process_payment
  process_payment-Recorded req = elim (Bool-cases (accepts_payment sv.float req)) [
    | inl accepted ↦ rw accepted (
        load_then-Recorded sv order_id w _ legal λ agg w' same loaded.
          guard_then-Recorded sv order_id (assert_can_pay agg) _ w' _ same λ passed.
            guard_then-Recorded sv order_id
              (require_success sv (charge req.payment_id req.amount req.method)) _ w' _ same
              λ _.
                guarded-Recorded sv order_id stamp _ _ _ agg _ w' same loaded (guards_decide agg).2
                  passed)
    | inr refused ↦ rw refused (unchanged refl λ response h. ground (arith, h))
  ]
