-- ===== src/Commands/Dispatch.antt =====
-- The commands of api/routers/command_router.py that change an order, as values, and what each
-- records.
use event_sourcing_cqrs.Prelude.{String}
use event_sourcing_cqrs.Events.{Stamp}
use event_sourcing_cqrs.Exec.{Exec}
use event_sourcing_cqrs.EventStore.History.{IsLegal}
use event_sourcing_cqrs.Schemas.{
  AddItemRequest, ProcessPaymentRequest, ShipOrderRequest, CancelOrderRequest, CommandResponse,
}
use event_sourcing_cqrs.Commands.{
  Services, World, add_item, confirm_order, process_payment, ship_order, cancel_order,
}
use event_sourcing_cqrs.Commands.Legal.{docs_of}
use event_sourcing_cqrs.Commands.Recorded.{Recorded, Recorded-IsLegal}
use event_sourcing_cqrs.Commands.Handlers.{
  add_item-Recorded, confirm_order-Recorded, process_payment-Recorded, ship_order-Recorded,
  cancel_order-Recorded,
}

-- The routes under `/orders/{order_id}`, with their bodies.
pub data Command (F : Type 0) : Type 0 where
  items : AddItemRequest F → Command F
  confirm : Command F
  payment : ProcessPaymentRequest F → Command F
  ship : ShipOrderRequest → Command F
  cancel : CancelOrderRequest → Command F

module _ {F : Type 0} (sv : Services F) (stamp : Stamp) (order_id : String) where
  -- The handler of a route.
  abbrev pub run_command : Command F → Exec (World sv) CommandResponse
  run_command (items req) = add_item sv stamp order_id req
  run_command confirm = confirm_order sv stamp order_id
  run_command (payment req) = process_payment sv stamp order_id req
  run_command (ship req) = ship_order sv stamp order_id req
  run_command (cancel req) = cancel_order sv stamp order_id req

  -- On legal histories each of the five commands on an order ends in one of two ways. It stores
  -- nothing, and does not return. Or it stores one event, the next of that order, and if it
  -- returns, it answers with the id and the version of that event and with the order's id.
  pub run_command-Recorded :
      (c : Command F) (w : World sv)
      → IsLegal (docs_of sv w)
      → Recorded order_id (docs_of sv w) (run_command c w).0 (docs_of sv (run_command c w).1)
  run_command-Recorded (items req) w legal = add_item-Recorded sv stamp order_id w legal req
  run_command-Recorded confirm w legal = confirm_order-Recorded sv stamp order_id w legal
  run_command-Recorded (payment req) w legal =
      process_payment-Recorded sv stamp order_id w legal req
  run_command-Recorded (ship req) w legal = ship_order-Recorded sv stamp order_id w legal req
  run_command-Recorded (cancel req) w legal = cancel_order-Recorded sv stamp order_id w legal req

  -- On legal histories each of the five commands on an order leaves the histories legal,
  -- however it ends.
  pub run_command-IsLegal :
      (c : Command F) (w : World sv)
      → IsLegal (docs_of sv w)
      → IsLegal (docs_of sv (run_command c w).1)
  run_command-IsLegal c w legal = Recorded-IsLegal (run_command-Recorded c w legal) legal
