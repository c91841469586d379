-- ===== src/ReadModel/Keys.antt =====
-- The keys of the read model's tables: what infra/postgres_init.sql declares, and what the statements
-- keep.
use event_sourcing_cqrs.Prelude.{
  String, ◌≡◌, refl, ◌∙◌, inl, inr, List, [], ◌∷◌, ◌++◌, Bool, true, false, ◌&&◌, ◌||◌, arith,
  str_eq, eq_iff, select, Bool-cases,
}
use event_sourcing_cqrs.ReadModel.{
  OrderRow, ItemRow, find_order, has_order, update_order, upsert_item, item_of,
}
use event_sourcing_cqrs.ReadModel.Rows.{KeepsKey, has_order-update}

module _ {N : Type 0} where
  -- `order_id TEXT PRIMARY KEY`
  abbrev pub UniqueOrders : List (OrderRow N) → Type 0
  UniqueOrders [] = Unit
  UniqueOrders (r ∷ rs) = (has_order r.order_id rs ≡ false) × UniqueOrders rs

  abbrev has_item : String → String → List (ItemRow N) → Bool
  has_item order_id product_id [] = false
  has_item order_id product_id (r ∷ rs) =
      str_eq r.order_id order_id && str_eq r.product_id product_id
      || has_item order_id product_id rs

  -- `UNIQUE(order_id, product_id)`
  abbrev pub UniqueItems : List (ItemRow N) → Type 0
  UniqueItems [] = Unit
  UniqueItems (r ∷ rs) = (has_item r.order_id r.product_id rs ≡ false) × UniqueItems rs

  -- `order_id TEXT NOT NULL REFERENCES orders(order_id)`
  abbrev pub AllOwned : List (OrderRow N) → List (ItemRow N) → Type 0
  AllOwned orders [] = Unit
  AllOwned orders (r ∷ rs) = (has_order r.order_id orders ≡ true) × AllOwned orders rs

  pub UniqueOrders-update :
      (oid : String) (set : OrderRow N → OrderRow N) (rows : List (OrderRow N))
      → KeepsKey set
      → UniqueOrders rows
      → UniqueOrders (update_order oid set rows)
  unfolding update_order
  UniqueOrders-update oid set [] keeps h = tt
  UniqueOrders-update oid set (r ∷ rs) keeps (fresh, rest) =
      let tail = UniqueOrders-update oid set rs keeps rest in
      let other = has_order-update oid r.order_id set rs keeps in
      elim (Bool-cases (str_eq r.order_id oid)) [
        | inl own ↦ rw own (rw (keeps r) (other ∙ fresh), tail)
        | inr apart ↦ rw apart (other ∙ fresh, tail)
      ]

  has_order-append :
      (oid : String) (rows : List (OrderRow N)) (r : OrderRow N)
      → has_order oid (rows ++ r ∷ []) ≡ (has_order oid rows || str_eq r.order_id oid)
  unfolding find_order
  has_order-append oid [] r = ground arith
  has_order-append oid (x ∷ xs) r = ground (arith, has_order-append oid xs r)

  pub UniqueOrders-append :
      (rows : List (OrderRow N)) (r : OrderRow N)
      → UniqueOrders rows
      → has_order r.order_id rows ≡ false
      → UniqueOrders (rows ++ r ∷ [])
  unfolding find_order
  UniqueOrders-append [] r h fresh = (refl, tt)
  UniqueOrders-append (x ∷ xs) r (alone, rest) fresh =
      let apart = has_order-append x.order_id xs r in
      (
        ground (
          arith,
          apart,
          alone,
          fresh,
          eq_iff r.order_id x.order_id,
          eq_iff x.order_id r.order_id,
        ),
        UniqueOrders-append xs r rest (ground (arith, fresh)),
      )

  pub AllOwned-grow :
      (orders : List (OrderRow N)) (r : OrderRow N) (items : List (ItemRow N))
      → AllOwned orders items
      → AllOwned (orders ++ r ∷ []) items
  AllOwned-grow orders r [] h = tt
  AllOwned-grow orders r (i ∷ is) (owned, rest) =
      (ground (arith, owned, has_order-append i.order_id orders r), AllOwned-grow orders r is rest)

  pub AllOwned-update :
      (oid : String) (set : OrderRow N → OrderRow N) (orders : List (OrderRow N))
      (items : List (ItemRow N))
      → KeepsKey set
      → AllOwned orders items
      → AllOwned (update_order oid set orders) items
  AllOwned-update oid set orders [] keeps h = tt
  AllOwned-update oid set orders (i ∷ is) keeps (owned, rest) = (
    has_order-update oid i.order_id set orders keeps ∙ owned,
    AllOwned-update oid set orders is keeps rest,
  )

  pub AllOwned-upsert :
      (orders : List (OrderRow N)) (new : ItemRow N) (items : List (ItemRow N))
      → has_order new.order_id orders ≡ true
      → AllOwned orders items
      → AllOwned orders (upsert_item new items)
  unfolding upsert_item
  AllOwned-upsert orders new [] owner h = (owner, tt)
  AllOwned-upsert orders new (i ∷ is) owner (owned, rest) =
      elim (Bool-cases (str_eq i.order_id new.order_id && str_eq i.product_id new.product_id)) [
        | inl same ↦ rw same (owned, rest)
        | inr apart ↦ rw apart (owned, AllOwned-upsert orders new is owner rest)
      ]

  has_item-upsert :
      (oid pid : String) (new : ItemRow N) (items : List (ItemRow N))
      → has_item oid pid items ≡ false
      → (str_eq new.order_id oid && str_eq new.product_id pid) ≡ false
      → has_item oid pid (upsert_item new items) ≡ false
  unfolding upsert_item
  has_item-upsert oid pid new [] h apart = ground (arith, apart)
  has_item-upsert oid pid new (i ∷ is) h apart =
      elim (Bool-cases (str_eq i.order_id new.order_id && str_eq i.product_id new.product_id)) [
        | inl same ↦ rw same h
        | inr other ↦ rw other (ground (arith, h, has_item-upsert oid pid new is))
      ]

  pub UniqueItems-upsert :
      (new : ItemRow N) (items : List (ItemRow N))
      → UniqueItems items
      → UniqueItems (upsert_item new items)
  unfolding upsert_item
  UniqueItems-upsert new [] h = (refl, tt)
  UniqueItems-upsert new (i ∷ is) (alone, rest) =
      elim (Bool-cases (str_eq i.order_id new.order_id && str_eq i.product_id new.product_id)) [
        | inl same ↦ rw same (alone, rest)
        | inr other ↦ rw other (
          has_item-upsert i.order_id i.product_id new is alone (
              ground (
                arith,
                other,
                eq_iff i.order_id new.order_id,
                eq_iff new.order_id i.order_id,
                eq_iff i.product_id new.product_id,
                eq_iff new.product_id i.product_id,
              )),
          UniqueItems-upsert new is rest,
        )
      ]

  -- An order without a row has no items.
  pub AllOwned-none :
      (oid : String) (orders : List (OrderRow N)) (items : List (ItemRow N))
      → AllOwned orders items
      → has_order oid orders ≡ false
      → select (item_of oid) items ≡ []
  unfolding select
  AllOwned-none oid orders [] h missing = refl
  AllOwned-none oid orders (i ∷ is) (owned, rest) missing =
      ground (arith, owned, missing, eq_iff i.order_id oid, AllOwned-none oid orders is rest)
