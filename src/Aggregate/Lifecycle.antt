-- ===== src/Aggregate/Lifecycle.antt =====
-- The lifecycle of an order as a state machine of its own, and the guards of the aggregate against
-- it.
use event_sourcing_cqrs.Prelude.{
  ℕ, suc, ◌≡◌, refl, Bool, true, false, Option, none, some, List, [], ◌∷◌, ◌++◌, foldl, arith, ◌==◌,
  if◌then◌else◌,
}
use event_sourcing_cqrs.Float.{Float}
use event_sourcing_cqrs.Events.{
  EventType, order_created, order_item_added, order_confirmed, order_payment_processed,
  order_shipped, order_cancelled, OrderStatus, pending, confirmed, paid, shipped, cancelled,
  Payload, creation, item, Event, event_type, payload_type,
}
use event_sourcing_cqrs.Exec.{Result, ok, err}
use event_sourcing_cqrs.Aggregate.{
  OrderAggregate, apply_payload, assert_can_add_item, assert_can_confirm, assert_can_pay,
  assert_can_ship, assert_can_cancel,
}

-- Where an order stands: not created yet, or in a status and with items or without.
pub data Stage : Type 0 where
  absent : Stage
  standing : OrderStatus → (has_items : Bool) → Stage

-- The moves that the commands may make. Nothing in the program delivers an order.
unfoldable pub advance : Stage → EventType → Option Stage
advance absent order_created = some (standing pending false)
advance (standing pending _) order_item_added = some (standing pending true)
advance (standing pending true) order_confirmed = some (standing confirmed true)
advance (standing confirmed b) order_payment_processed = some (standing paid b)
advance (standing paid b) order_shipped = some (standing shipped b)
advance (standing pending b) order_cancelled = some (standing cancelled b)
advance (standing confirmed b) order_cancelled = some (standing cancelled b)
advance (standing paid b) order_cancelled = some (standing cancelled b)
advance (standing cancelled b) order_cancelled = some (standing cancelled b)
advance _ _ = none

abbrev pub non_empty : {A : Type 0} → List A → Bool
non_empty [] = false
non_empty (_ ∷ _) = true

abbrev pub passes : Result (Unit {0}) → Bool
passes (ok _) = true
passes (err _) = false

abbrev pub is_some : {A : Type 0} → Option A → Bool
is_some none = false
is_some (some _) = true

non_empty-snoc : {A : Type 0} (xs : List A) (x : A) → non_empty (xs ++ x ∷ []) ≡ true
non_empty-snoc [] x = refl
non_empty-snoc (_ ∷ _) x = refl

module _ {F : Type 0} where
  -- An aggregate that has been created, as a stage.
  abbrev pub stage_of : OrderAggregate F → Stage
  stage_of agg = standing agg.status (non_empty agg.items)

  -- Each of the five guards of the aggregate passes exactly where the lifecycle has a move for
  -- the command's event.
  pub guards_decide :
      (agg : OrderAggregate F)
      → (passes (assert_can_add_item agg) ≡ is_some (advance (stage_of agg) order_item_added))
        × (passes (assert_can_confirm agg) ≡ is_some (advance (stage_of agg) order_confirmed))
        × (passes (assert_can_pay agg) ≡ is_some (advance (stage_of agg) order_payment_processed))
        × (passes (assert_can_ship agg) ≡ is_some (advance (stage_of agg) order_shipped))
        × (passes (assert_can_cancel agg) ≡ is_some (advance (stage_of agg) order_cancelled))
  unfolding advance assert_can_add_item assert_can_confirm assert_can_pay assert_can_ship
      assert_can_cancel
  guards_decide agg = ground arith

  -- One event of a history: the next version, and a move of the lifecycle.
  abbrev pub walk : Option (Stage × ℕ) → Event F → Option (Stage × ℕ)
  walk none e = none
  walk (some (stage, n)) e = elim (advance stage (event_type e)) [
    | none ↦ none
    | some next ↦ if e.aggregate_version == suc n then some (next, suc n) else none
  ]

  -- Where a whole history leads, if its versions count from 1 and each event is a move.
  unfoldable pub lifecycle : List (Event F) → Option (Stage × ℕ)
  lifecycle = foldl walk (some (absent, 0))

module _ {F : Type 0} (float : Float F) where
  -- The aggregate stands at a stage, with that many events applied.
  abbrev pub StandsAt : OrderAggregate F → Stage → ℕ → Type 0
  StandsAt agg absent n = (agg.version ≡ n) × (agg.items ≡ [])
  StandsAt agg (standing status has_items) n =
      (agg.version ≡ n) × (agg.status ≡ status) × (non_empty agg.items ≡ has_items)

  pub apply_payload-StandsAt :
      (agg : OrderAggregate F) (v : ℕ) (p : Payload F) (stage : Stage) (n : ℕ) (next : Stage)
      → StandsAt agg stage n
      → advance stage (payload_type p) ≡ some next
      → v ≡ suc n
      → StandsAt (apply_payload float (record agg { version = v }) p) next (suc n)
  unfolding advance apply_payload
  apply_payload-StandsAt agg v (item l) (standing pending b) n next s h e =
      ground (arith, non_empty-snoc agg.items l)
  apply_payload-StandsAt agg v (item l) stage n next s h e = ground arith
  apply_payload-StandsAt agg v (creation _ _ _ _) absent n next s h e = ground arith
  apply_payload-StandsAt agg v (creation _ _ _ _) (standing pending b) n next s h e = ground arith
  apply_payload-StandsAt agg v _ absent n next s h e = ground arith
  apply_payload-StandsAt agg v _ (standing pending true) n next s h e = ground arith
  apply_payload-StandsAt agg v _ stage n next s h e = ground arith
