-- ===== src/Projection/Frame.antt =====
-- What a projection leaves alone: the rows and lines of other orders.
use event_sourcing_cqrs.Prelude.{
  ℕ, String, ◌≡◌, refl, sym, ap, ◌∙◌, inl, inr, some, false, arith, str_eq, Bool-cases, select,
  some-injective,
}
use event_sourcing_cqrs.Events.{LineItem, Payload, creation, item, Event}
use event_sourcing_cqrs.Numeric.{Numeric}
use event_sourcing_cqrs.ReadModel.{
  OrderRow, ItemRow, Tables, find_order, has_order, item_of, sum_items,
}
use event_sourcing_cqrs.ReadModel.Rows.{
  KeepsKey, find_order-update_other, find_order-append_other, select-upsert_other,
}
use event_sourcing_cqrs.Projection.{
  int4, set_order, insert_order, insert_item, update_total, item_row, add_line, project_payload,
  project, created_row, bind_some,
}

-- The row and the lines of an order are the same in both.
abbrev pub Untouched : {N : Type 0} → String → Tables N → Tables N → Type 0
Untouched other t t' =
    (find_order other t'.orders ≡ find_order other t.orders)
    × (select (item_of other) t'.order_items ≡ select (item_of other) t.order_items)

module _ {F N : Type 0} (numeric : Numeric F N) (now : ℕ) (oid : String) where
  pub item_row-order_id :
      (line : LineItem F) (row : ItemRow N)
      → item_row numeric now oid line ≡ some row
      → row.order_id ≡ oid
  unfolding item_row
  item_row-order_id line row h =
      let (quantity, _, h₁) = bind_some (int4 line.quantity) _ h in
      let (price, _, h₂) = bind_some (numeric.to_price line.unit_price) _ h₁ in
      let (total, _, h₃) = bind_some (numeric.to_amount line.line_total) _ h₂ in
      sym (ap (λ (r : ItemRow N). r.order_id) (some-injective _ _ h₃))

module _ {F N : Type 0} (numeric : Numeric F N) (now : ℕ) (oid other : String)
    (apart : str_eq oid other ≡ false) where
  set_order-Untouched :
      (set : OrderRow N → OrderRow N) (t t' : Tables N)
      → set_order oid set t ≡ some t'
      → KeepsKey set
      → Untouched other t t'
  set_order-Untouched set t t' h keeps =
      rw (← some-injective _ _ h) (find_order-update_other oid other set t.orders keeps apart, refl)

  insert_order-Untouched :
      (c m : String) (version : ℕ) (t : Tables N)
      → Untouched other t (insert_order numeric now oid c m version t)
  unfolding insert_order
  insert_order-Untouched c m version t = elim (Bool-cases (has_order oid t.orders)) [
    | inl there ↦ rw there (refl, refl)
    | inr fresh ↦ rw fresh (
      find_order-append_other other t.orders (created_row numeric now oid c m version) apart,
      refl,
    )
  ]

  update_total-Untouched :
      (version : ℕ) (t t' : Tables N)
      → update_total numeric now oid version t ≡ some t'
      → Untouched other t t'
  unfolding update_total
  update_total-Untouched version t t' h =
      elim (Bool-cases (numeric.fits_amount (sum_items numeric oid t.order_items))) [
        | inl fits ↦ set_order-Untouched _ t t' (rw fits at h) (λ r. refl)
        | inr too_large ↦ ground (arith, too_large, h)
      ]

  insert_item-Untouched :
      (row : ItemRow N) (t t' : Tables N)
      → row.order_id ≡ oid
      → insert_item row t ≡ some t'
      → Untouched other t t'
  unfolding insert_item
  insert_item-Untouched row t t' own h = elim (Bool-cases (has_order row.order_id t.orders)) [
    | inl there ↦
        rw (← some-injective _ _ (rw there at h))
          (refl, select-upsert_other other row t.order_items (ap (λ o. str_eq o other) own ∙ apart))
    | inr missing ↦ ground (arith, missing, h)
  ]

  add_line-Untouched :
      (line : LineItem F) (version : ℕ) (t t' : Tables N)
      → add_line numeric now oid line version t ≡ some t'
      → Untouched other t t'
  unfolding add_line
  add_line-Untouched line version t t' h =
      let (row, fits, h₁) = bind_some (item_row numeric now oid line) _ h in
      let (t₁, stored, h₂) = bind_some (insert_item row t) _ h₁ in
      let (row_kept, lines_kept) =
        insert_item-Untouched row t t₁ (item_row-order_id numeric now oid line row fits) stored in
      let (row_after, lines_after) = update_total-Untouched version t₁ t' h₂ in
      (row_after ∙ row_kept, lines_after ∙ lines_kept)

  project_payload-Untouched :
      (version : ℕ) (p : Payload F) (t t' : Tables N)
      → project_payload numeric now oid version p t ≡ some t'
      → Untouched other t t'
  unfolding project_payload
  project_payload-Untouched version (creation c m _ _) t t' h =
      rw (← some-injective _ _ h) (insert_order-Untouched c m version t)
  project_payload-Untouched version (item line) t t' h = add_line-Untouched line version t t' h
  project_payload-Untouched version _ t t' h = set_order-Untouched _ t t' h (λ r. refl)

module _ {F N : Type 0} (numeric : Numeric F N) (now : ℕ) where
  -- Projecting an event of one order leaves the row and the lines of every other order as they
  -- are.
  pub project-Untouched :
      (e : Event F) (other : String) (t t' : Tables N)
      → str_eq e.aggregate_id other ≡ false
      → project numeric now e t ≡ some t'
      → Untouched other t t'
  unfolding project
  project-Untouched e other t t' apart h =
      let (version, fits, h₁) = bind_some (int4 e.aggregate_version) _ h in
      project_payload-Untouched numeric now e.aggregate_id other apart version e.payload t t' h₁
