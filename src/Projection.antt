-- ===== src/Projection.antt =====
-- consumers/main.py, `project_to_postgres`: the statements of one event's transaction. `none` is a
-- statement that fails, which rolls the transaction back.
pub mod Frame
pub mod Replay
pub mod Agreement
pub mod Refinement
pub mod Validity
use event_sourcing_cqrs.Prelude.{
  ℕ, String, ◌≡◌, refl, Option, none, some, [], ◌∷◌, ◌++◌, ltb, if◌then◌else◌,
}
use event_sourcing_cqrs.Events.{
  pending, confirmed, paid, shipped, delivered, cancelled, LineItem, Payload, creation, item,
  confirmation, payment, shipment, delivery, cancellation, Event,
}
use event_sourcing_cqrs.Numeric.{Numeric}
use event_sourcing_cqrs.ReadModel.{
  OrderRow, ItemRow, Tables, has_order, update_order, upsert_item, sum_items,
}

infixl 5 ◌>>=◌
abbrev pub ◌>>=◌ : {A B : Type 0} → Option A → (A → Option B) → Option B
none >>= f = none
some a >>= f = f a

-- A chain that succeeds, taken apart.
pub bind_some :
    {A B : Type 0} (m : Option A) (f : A → Option B) {b : B}
    → (m >>= f) ≡ some b
    → (a : A) × (m ≡ some a) × (f a ≡ some b)
bind_some none f h = cc
bind_some (some a) f h = (a, refl, h)

-- A parameter of an INTEGER column: 32 bits, signed.
abbrev pub int4 : ℕ → Option ℕ
int4 n = if ltb n 2147483648 then some n else none

module _ {N : Type 0} where
  -- The foreign key of `order_items`, then the upsert.
  unfoldable pub insert_item : ItemRow N → Tables N → Option (Tables N)
  insert_item row t =
      if has_order row.order_id t.orders
      then some (record t { order_items = upsert_item row t.order_items })
      else none

  -- The other updates of one order's row.
  abbrev pub set_order : String → (OrderRow N → OrderRow N) → Tables N → Option (Tables N)
  set_order order_id set t = some (record t { orders = update_order order_id set t.orders })

module _ {F N : Type 0} (numeric : Numeric F N) (now : ℕ) where
  -- The row that ORDER_CREATED inserts.
  abbrev pub created_row : String → String → String → ℕ → OrderRow N
  created_row order_id customer_id customer_email version = record {
    order_id = order_id;
    customer_id = customer_id;
    customer_email = customer_email;
    status = pending;
    total_amount = numeric.zero;
    version = version;
    payment_id = none;
    tracking_id = none;
    created_at = now;
    updated_at = now;
  }

  -- `INSERT INTO orders ... ON CONFLICT (order_id) DO NOTHING`
  unfoldable pub insert_order : String → String → String → ℕ → Tables N → Tables N
  insert_order order_id customer_id customer_email version t =
      if has_order order_id t.orders then t else record t {
        orders = t.orders ++ created_row order_id customer_id customer_email version ∷ [];
      }

  -- `UPDATE orders SET total_amount = (SELECT ...), version = $2, updated_at = NOW()`
  unfoldable pub update_total : String → ℕ → Tables N → Option (Tables N)
  update_total order_id version t =
      let total = sum_items numeric order_id t.order_items in
      if numeric.fits_amount total
      then some (record t {
        orders =
            update_order order_id
              (λ r. record r { total_amount = total; version = version; updated_at = now })
              t.orders;
      })
      else none

  -- The parameters of an item's row, each as its column takes it.
  unfoldable pub item_row : String → LineItem F → Option (ItemRow N)
  item_row order_id line = do
    quantity ← int4 line.quantity
    unit_price ← numeric.to_price line.unit_price
    line_total ← numeric.to_amount line.line_total
    some (record {
      order_id = order_id;
      product_id = line.product_id;
      product_name = line.product_name;
      quantity = quantity;
      unit_price = unit_price;
      line_total = line_total;
    })

  -- the branch of ORDER_ITEM_ADDED
  unfoldable pub add_line : String → LineItem F → ℕ → Tables N → Option (Tables N)
  add_line order_id line version t = do
    row ← item_row order_id line
    t' ← insert_item row t
    update_total order_id version t'

  -- the branches on the event's type, for an order id and a version that fits its column
  unfoldable pub project_payload : String → ℕ → Payload F → Tables N → Option (Tables N)
  project_payload oid version (creation customer_id customer_email _ _) t =
      some (insert_order oid customer_id customer_email version t)
  project_payload oid version (item line) t = add_line oid line version t
  project_payload oid version (confirmation _) t =
      set_order oid (λ r. record r { status = confirmed; version = version; updated_at = now }) t
  project_payload oid version (payment payment_id _ _ _) t =
      set_order oid
        (λ r. record r {
          status = paid;
          payment_id = some payment_id;
          version = version;
          updated_at = now;
        })
        t
  project_payload oid version (shipment tracking_id _ _) t =
      set_order oid
        (λ r. record r {
          status = shipped;
          tracking_id = some tracking_id;
          version = version;
          updated_at = now;
        })
        t
  project_payload oid version delivery t =
      set_order oid (λ r. record r { status = delivered; version = version; updated_at = now }) t
  project_payload oid version (cancellation _ _) t =
      set_order oid (λ r. record r { status = cancelled; version = version; updated_at = now }) t

  -- The transaction of `project_to_postgres`.
  unfoldable pub project : Event F → Tables N → Option (Tables N)
  project e t = do
    version ← int4 e.aggregate_version
    project_payload e.aggregate_id version e.payload t
