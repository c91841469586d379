-- ===== src/Projection/Replay.antt =====
-- Projecting an event a second time, right after the first.
use event_sourcing_cqrs.Prelude.{ℕ, String, ◌≡◌, refl, ◌∙◌, inl, inr, some, arith, Option-cases}
use event_sourcing_cqrs.Events.{LineItem, Payload, creation, item, Event}
use event_sourcing_cqrs.Numeric.{Numeric}
use event_sourcing_cqrs.ReadModel.{OrderRow, ItemRow, Tables, find_order, update_order, sum_items}
use event_sourcing_cqrs.ReadModel.Rows.{
  KeepsKey, update_order-update, upsert_item-again, has_order-update, find_order-append,
}
use event_sourcing_cqrs.Projection.{
  int4, created_row, set_order, insert_order, insert_item, update_total, item_row, add_line,
  project_payload, project, ◌>>=◌,
}

module _ {F N : Type 0} (numeric : Numeric F N) (now later : ℕ) where
  -- What the second time changes: `updated_at` of the order's row, except for ORDER_CREATED.
  abbrev pub touched : String → Payload F → Tables N → Tables N
  touched oid (creation _ _ _ _) t = t
  touched oid _ t = record t {
    orders = update_order oid (λ r. record r { updated_at = later }) t.orders;
  }

  insert_order-again :
      (oid customer_id customer_email : String) (version : ℕ) (t : Tables N)
      → let t' = insert_order numeric now oid customer_id customer_email version t in
        insert_order numeric later oid customer_id customer_email version t' ≡ t'
  unfolding insert_order
  insert_order-again oid customer_id customer_email version t =
      elim (Option-cases (find_order oid t.orders)) [
        | inr (r, found) ↦ ground (arith, found)
        | inl missing ↦
            let row = created_row numeric now oid customer_id customer_email version in
            ground (arith, missing, find_order-append oid t.orders row missing refl)
      ]

  insert_item-again :
      (row : ItemRow N) (t t' : Tables N)
      → insert_item row t ≡ some t'
      → insert_item row t' ≡ some t'
  unfolding insert_item
  insert_item-again row t t' h = ground (arith, upsert_item-again row t.order_items)

  update_total-again :
      (oid : String) (version : ℕ) (t t' : Tables N)
      → update_total numeric now oid version t ≡ some t'
      → update_total numeric later oid version t'
        ≡ some (record t' {
          orders = update_order oid (λ r. record r { updated_at = later }) t'.orders;
        })
  unfolding update_total
  update_total-again oid version t t' h =
      let total = sum_items numeric oid t.order_items in
      ground (
        arith,
        update_order-update oid
            (λ r. record r { total_amount = total; version = version; updated_at = now })
            (λ r. record r { total_amount = total; version = version; updated_at = later })
            (λ r. record r { updated_at = later }) t.orders (λ r. refl) (λ r. refl),
      )

  insert_item-after :
      (row : ItemRow N) (oid : String) (version : ℕ) (t t₁ t' : Tables N)
      → insert_item row t ≡ some t₁
      → update_total numeric now oid version t₁ ≡ some t'
      → insert_item row t' ≡ some t'
  unfolding insert_item update_total
  insert_item-after row oid version t t₁ t' h k =
      let total = sum_items numeric oid t₁.order_items in
      ground (
        arith,
        upsert_item-again row t.order_items,
        has_order-update oid row.order_id
            (λ r. record r { total_amount = total; version = version; updated_at = now }) t₁.orders
            (λ r. refl),
      )

  store_line-again :
      (row : ItemRow N) (oid : String) (version : ℕ) (t t' : Tables N)
      → (insert_item row t >>= update_total numeric now oid version) ≡ some t'
      → (insert_item row t' >>= update_total numeric later oid version)
        ≡ some (record t' {
          orders = update_order oid (λ r. record r { updated_at = later }) t'.orders;
        })
  store_line-again row oid version t t' h = elim (Option-cases (insert_item row t)) [
    | inl none_stored ↦ ground (arith, none_stored, h)
    | inr (t₁, stored) ↦
        let k = rw stored at h in
        rw (insert_item-after row oid version t t₁ t' stored k)
          (update_total-again oid version t₁ t' k)
  ]

  -- The row of an item does not depend on the clock.
  item_row-later :
      (oid : String) (line : LineItem F)
      → item_row numeric later oid line ≡ item_row numeric now oid line
  unfolding item_row
  item_row-later oid line = refl

  add_line-again :
      (oid : String) (line : LineItem F) (version : ℕ) (t t' : Tables N)
      → add_line numeric now oid line version t ≡ some t'
      → add_line numeric later oid line version t'
        ≡ some (record t' {
          orders = update_order oid (λ r. record r { updated_at = later }) t'.orders;
        })
  unfolding add_line
  add_line-again oid line version t t' h = elim (Option-cases (item_row numeric now oid line)) [
    | inl refused ↦ ground (arith, refused, h)
    | inr (row, e) ↦
        rw (item_row-later oid line ∙ e) (store_line-again row oid version t t' (rw e at h))
  ]

  set_order-again :
      (oid : String) (first second : OrderRow N → OrderRow N) (t t' : Tables N)
      → KeepsKey first
      → ((r : OrderRow N) → second (first r) ≡ record (first r) { updated_at = later })
      → set_order oid first t ≡ some t'
      → set_order oid second t'
        ≡ some (record t' {
          orders = update_order oid (λ r. record r { updated_at = later }) t'.orders;
        })
  set_order-again oid first second t t' keeps same h = ground (
    arith,
    update_order-update oid first second (λ r. record r { updated_at = later }) t.orders keeps same,
  )

  project_payload-again :
      (oid : String) (version : ℕ) (p : Payload F) (t t' : Tables N)
      → project_payload numeric now oid version p t ≡ some t'
      → project_payload numeric later oid version p t' ≡ some (touched oid p t')
  unfolding project_payload
  project_payload-again oid version (creation c m _ _) t t' h =
      ground (arith, insert_order-again oid c m version t)
  project_payload-again oid version (item line) t t' h = add_line-again oid line version t t' h
  project_payload-again oid version _ t t' h =
      set_order-again oid _ _ t t' (λ r. refl) (λ r. refl) h

  -- An event that was projected is projected again to the same tables, whatever the clock, but
  -- for a new `updated_at` in the order's row, which ORDER_CREATED leaves alone too.
  pub project-again :
      (e : Event F) (t t' : Tables N)
      → project numeric now e t ≡ some t'
      → project numeric later e t' ≡ some (touched e.aggregate_id e.payload t')
  unfolding project
  project-again e t t' h = elim (Option-cases (int4 e.aggregate_version)) [
    | inl refused ↦ ground (arith, refused, h)
    | inr (version, fits) ↦
        rw fits (project_payload-again e.aggregate_id version e.payload t t' (rw fits at h))
  ]
