-- ===== src/ReadModel/Rows.antt =====
-- The statements on rows: what they find, keep and repeat.
use event_sourcing_cqrs.Prelude.{
  String, ◌≡◌, refl, Option, none, some, List, [], ◌∷◌, ◌++◌, false, arith, str_eq, eq_iff, select,
}
use event_sourcing_cqrs.ReadModel.{
  OrderRow, ItemRow, find_order, has_order, update_order, upsert_item, item_of,
}

module _ {N : Type 0} where
  abbrev pub KeepsKey : (OrderRow N → OrderRow N) → Type 0
  KeepsKey set = (r : OrderRow N) → (set r).order_id ≡ r.order_id

  abbrev pub map_found : (OrderRow N → OrderRow N) → Option (OrderRow N) → Option (OrderRow N)
  map_found set none = none
  map_found set (some r) = some (set r)

  -- An update reaches the order's row.
  pub find_order-update_self :
      (oid : String) (set : OrderRow N → OrderRow N) (rows : List (OrderRow N))
      → KeepsKey set
      → find_order oid (update_order oid set rows) ≡ map_found set (find_order oid rows)
  unfolding find_order update_order
  find_order-update_self oid set [] keeps = refl
  find_order-update_self oid set (r ∷ rs) keeps =
      ground (arith, keeps r, find_order-update_self oid set rs keeps)

  -- It reaches no other.
  pub find_order-update_other :
      (oid other : String) (set : OrderRow N → OrderRow N) (rows : List (OrderRow N))
      → KeepsKey set
      → str_eq oid other ≡ false
      → find_order other (update_order oid set rows) ≡ find_order other rows
  unfolding find_order update_order
  find_order-update_other oid other set [] keeps ne = refl
  find_order-update_other oid other set (r ∷ rs) keeps ne = ground (
    arith,
    keeps r,
    find_order-update_other oid other set rs keeps ne,
    eq_iff r.order_id oid,
    eq_iff r.order_id other,
    eq_iff oid other,
  )

  pub has_order-update :
      (oid other : String) (set : OrderRow N → OrderRow N) (rows : List (OrderRow N))
      → KeepsKey set
      → has_order other (update_order oid set rows) ≡ has_order other rows
  unfolding find_order update_order
  has_order-update oid other set [] keeps = refl
  has_order-update oid other set (r ∷ rs) keeps =
      ground (arith, keeps r, has_order-update oid other set rs keeps)

  -- A second update over a first.
  pub update_order-update :
      (oid : String) (first second third : OrderRow N → OrderRow N) (rows : List (OrderRow N))
      → KeepsKey first
      → ((r : OrderRow N) → second (first r) ≡ third (first r))
      → update_order oid second (update_order oid first rows)
        ≡ update_order oid third (update_order oid first rows)
  unfolding update_order
  update_order-update oid first second third [] keeps same = refl
  update_order-update oid first second third (r ∷ rs) keeps same =
      ground (arith, keeps r, same r, update_order-update oid first second third rs keeps same)

  pub find_order-append :
      (oid : String) (rows : List (OrderRow N)) (r : OrderRow N)
      → find_order oid rows ≡ none
      → r.order_id ≡ oid
      → find_order oid (rows ++ r ∷ []) ≡ some r
  unfolding find_order
  find_order-append oid [] r h e = ground (arith, eq_iff r.order_id oid)
  find_order-append oid (x ∷ xs) r h e = ground (arith, find_order-append oid xs r)

  pub find_order-append_other :
      (oid : String) (rows : List (OrderRow N)) (r : OrderRow N)
      → str_eq r.order_id oid ≡ false
      → find_order oid (rows ++ r ∷ []) ≡ find_order oid rows
  unfolding find_order
  find_order-append_other oid [] r h = ground arith
  find_order-append_other oid (x ∷ xs) r h = ground (arith, find_order-append_other oid xs r h)

  -- The same line again changes nothing.
  pub upsert_item-again :
      (new : ItemRow N) (rows : List (ItemRow N))
      → upsert_item new (upsert_item new rows) ≡ upsert_item new rows
  unfolding upsert_item
  upsert_item-again new [] =
      ground (arith, eq_iff new.order_id new.order_id, eq_iff new.product_id new.product_id)
  upsert_item-again new (r ∷ rs) = ground (arith, upsert_item-again new rs)

  -- A line of one order leaves the lines of another.
  pub select-upsert_other :
      (oid : String) (new : ItemRow N) (rows : List (ItemRow N))
      → str_eq new.order_id oid ≡ false
      → select (item_of oid) (upsert_item new rows) ≡ select (item_of oid) rows
  unfolding upsert_item select
  select-upsert_other oid new [] h = ground arith
  select-upsert_other oid new (r ∷ rs) h =
      ground (arith, select-upsert_other oid new rs h, eq_iff r.order_id new.order_id)
