-- ===== src/Tests/Orders.antt =====
-- Rebuilding an order, and the guards on it.
use event_sourcing_cqrs.Prelude.{ℕ, ◌≡◌, refl, none, some, List, [], ◌∷◌, sort_by, insert_by, true}
use mathlib.Core.Equiv.{IsContr}
use mathlib.Core.Quot
use native.Mathlib.Nat.{ℕ_set}
use event_sourcing_cqrs.Events.{
  Event, order_item_added, order_confirmed, order_payment_processed, order_shipped, order_cancelled,
  paid,
}
use event_sourcing_cqrs.Exec.{ok, Result}
use event_sourcing_cqrs.Aggregate.{
  OrderAggregate, rebuild_from_events, apply, apply_payload, assert_can_add_item,
  assert_can_confirm, assert_can_pay, assert_can_ship, assert_can_cancel,
}
use event_sourcing_cqrs.Aggregate.Order.{version_of}
use event_sourcing_cqrs.Aggregate.Bags.{Listing, Bag, rebuild_from_events-bag}
use event_sourcing_cqrs.Aggregate.Totals.{lines_of, Holds, rebuild_from_events-Holds}
use event_sourcing_cqrs.Aggregate.Lifecycle.{
  standing, advance, passes, is_some, stage_of, guards_decide, lifecycle,
}
use event_sourcing_cqrs.Aggregate.Histories.{rebuild_from_events-lifecycle}
use event_sourcing_cqrs.Tests.Memory.{whole_floats}
use event_sourcing_cqrs.Tests.Scenario.{created, filled, agreed, settled, pens}

abbrev stored_events : List (Event ℕ)
stored_events = created ∷ filled ∷ agreed ∷ settled ∷ []

abbrev paid_order : OrderAggregate ℕ
paid_order = record {
  order_id = "o1";
  status = paid;
  customer_id = "ann";
  customer_email = "ann@example.org";
  items = pens ∷ [];
  total_amount = 6;
  version = 4;
  payment_id = some "pay_1";
  tracking_id = none;
}

rebuild_from_events-lifecycle_example :
    (agg : OrderAggregate ℕ) × (rebuild_from_events whole_floats stored_events ≡ ok agg)
    × (stage_of agg ≡ standing paid true)
    × (agg.version ≡ 4)
    × (agg.order_id ≡ "o1")
unfolding lifecycle advance
rebuild_from_events-lifecycle_example =
    rebuild_from_events-lifecycle whole_floats created (filled ∷ agreed ∷ settled ∷ [])
      (standing paid true) 4 refl

-- The events may come in any order.
rebuild_from_events-Holds_example :
    Holds whole_floats
      (lines_of (sort_by version_of (filled ∷ settled ∷ created ∷ agreed ∷ [])))
      paid_order
unfolding rebuild_from_events apply apply_payload sort_by insert_by
rebuild_from_events-Holds_example =
    rebuild_from_events-Holds whole_floats (filled ∷ settled ∷ created ∷ agreed ∷ []) paid_order
      refl

rebuild_from_events-bag_example : IsContr (
    (g : Bag ℕ "o1" → Result (OrderAggregate ℕ)) × ((l : Listing ℕ "o1")
      → g (Quot.mk l) ≡ rebuild_from_events whole_floats l.events))
rebuild_from_events-bag_example = rebuild_from_events-bag whole_floats "o1" ℕ_set

guards_decide_example :
    (passes (assert_can_add_item paid_order)
      ≡ is_some (advance (stage_of paid_order) order_item_added))
    × (passes (assert_can_confirm paid_order)
        ≡ is_some (advance (stage_of paid_order) order_confirmed))
    × (passes (assert_can_pay paid_order)
        ≡ is_some (advance (stage_of paid_order) order_payment_processed))
    × (passes (assert_can_ship paid_order) ≡ is_some (advance (stage_of paid_order) order_shipped))
    × (passes (assert_can_cancel paid_order)
        ≡ is_some (advance (stage_of paid_order) order_cancelled))
guards_decide_example = guards_decide paid_order
