-- ===== src/ReadModel.antt =====
-- infra/postgres_init.sql: the tables of the read model. The `id` of an item is left out: no
-- statement reads it.
pub mod Rows
pub mod Keys
use event_sourcing_cqrs.Prelude.{
  ℕ, String, Option, none, some, List, [], ◌∷◌, Bool, true, false, ◌&&◌, str_eq, if◌then◌else◌,
  foldl, map, select,
}
use event_sourcing_cqrs.Events.{OrderStatus}
use event_sourcing_cqrs.Numeric.{Numeric}

-- A row of `orders`.
pub record OrderRow (N : Type 0) : Type 0 where
  pub order_id : String
  pub customer_id : String
  pub customer_email : String
  pub status : OrderStatus
  pub total_amount : N
  pub version : ℕ
  pub payment_id : Option String
  pub tracking_id : Option String
  pub created_at : ℕ
  pub updated_at : ℕ

-- A row of `order_items`.
pub record ItemRow (N : Type 0) : Type 0 where
  pub order_id : String
  pub product_id : String
  pub product_name : String
  pub quantity : ℕ
  pub unit_price : N
  pub line_total : N

pub record Tables (N : Type 0) : Type 0 where
  pub orders : List (OrderRow N)
  pub order_items : List (ItemRow N)

module _ {N : Type 0} where
  -- The row of an order, by the primary key.
  unfoldable pub find_order : String → List (OrderRow N) → Option (OrderRow N)
  find_order order_id [] = none
  find_order order_id (r ∷ rs) =
      if str_eq r.order_id order_id then some r else find_order order_id rs

  abbrev pub has_order : String → List (OrderRow N) → Bool
  has_order order_id rows = elim (find_order order_id rows) [ none ↦ false | some _ ↦ true ]

  -- `UPDATE orders SET ... WHERE order_id = $1`
  unfoldable pub update_order :
      String → (OrderRow N → OrderRow N) → List (OrderRow N) → List (OrderRow N)
  update_order order_id set [] = []
  update_order order_id set (r ∷ rs) =
      (if str_eq r.order_id order_id then set r else r) ∷ update_order order_id set rs

  -- `INSERT INTO order_items ... ON CONFLICT (order_id, product_id) DO UPDATE SET quantity =
  -- EXCLUDED.quantity, line_total = EXCLUDED.line_total`
  unfoldable pub upsert_item : ItemRow N → List (ItemRow N) → List (ItemRow N)
  upsert_item new [] = new ∷ []
  upsert_item new (r ∷ rs) =
      if str_eq r.order_id new.order_id && str_eq r.product_id new.product_id
      then record r { quantity = new.quantity; line_total = new.line_total } ∷ rs
      else r ∷ upsert_item new rs

  abbrev pub item_of : String → ItemRow N → Bool
  item_of order_id r = str_eq r.order_id order_id

  -- `SELECT COALESCE(SUM(line_total), 0) FROM order_items WHERE order_id = $1`
  unfoldable pub sum_items : {F : Type 0} → Numeric F N → String → List (ItemRow N) → N
  sum_items numeric order_id rows =
      foldl numeric.add numeric.zero (map (λ r. r.line_total) (select (item_of order_id) rows))
