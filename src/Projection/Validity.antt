-- ===== src/Projection/Validity.antt =====
-- The read model's constraints and totals under the projection of consumers/main.py.
use event_sourcing_cqrs.Prelude.{
  ℕ, String, ◌≡◌, refl, sym, ap, subst, ◌∙◌, inl, inr, none, some, List, [], ◌∷◌, ◌++◌, false,
  arith, str_eq, eq_iff, Bool-cases, Option-cases, some-injective,
}
use event_sourcing_cqrs.Events.{Payload, creation, item, Event}
use event_sourcing_cqrs.Numeric.{Numeric}
use event_sourcing_cqrs.ReadModel.{
  OrderRow, ItemRow, Tables, find_order, has_order, update_order, sum_items, upsert_item,
}
use event_sourcing_cqrs.ReadModel.Rows.{
  KeepsKey, map_found, find_order-update_self, find_order-update_other, find_order-append,
  find_order-append_other, select-upsert_other,
}
use event_sourcing_cqrs.ReadModel.Keys.{
  UniqueOrders, UniqueItems, AllOwned, UniqueOrders-update, UniqueOrders-append, AllOwned-grow,
  AllOwned-update, AllOwned-upsert, UniqueItems-upsert, AllOwned-none,
}
use event_sourcing_cqrs.Projection.{
  int4, created_row, set_order, insert_order, insert_item, update_total, item_row, add_line,
  project_payload, project, bind_some,
}
use event_sourcing_cqrs.Projection.Frame.{item_row-order_id}

module _ {F N : Type 0} (numeric : Numeric F N) where
  -- The tables keep the keys of their schema, and the total of an order is the sum of its lines.
  pub record IsWellFormed (t : Tables N) : Type 0 where
    pub unique_orders : UniqueOrders t.orders
    pub unique_items : UniqueItems t.order_items
    pub owned : AllOwned t.orders t.order_items
    pub totals :
        (oid : String) (row : OrderRow N)
        → find_order oid t.orders ≡ some row
        → row.total_amount ≡ sum_items numeric oid t.order_items

  -- All but the total of one order.
  record IsWellFormedBut (own : String) (t : Tables N) : Type 0 where
    pub unique_orders : UniqueOrders t.orders
    pub unique_items : UniqueItems t.order_items
    pub owned : AllOwned t.orders t.order_items
    pub totals :
        (oid : String) (row : OrderRow N)
        → str_eq own oid ≡ false
        → find_order oid t.orders ≡ some row
        → row.total_amount ≡ sum_items numeric oid t.order_items

  but : (own : String) (t : Tables N) → IsWellFormed t → IsWellFormedBut own t
  but own t wf = record {
    unique_orders = wf.unique_orders;
    unique_items = wf.unique_items;
    owned = wf.owned;
    totals = λ oid row apart found. wf.totals oid row found;
  }

  updated-total :
      (own : String) (set : OrderRow N → OrderRow N) (t : Tables N) (row : OrderRow N)
      → KeepsKey set
      → ((r : OrderRow N)
          → find_order own t.orders ≡ some r
          → (set r).total_amount ≡ sum_items numeric own t.order_items)
      → find_order own (update_order own set t.orders) ≡ some row
      → row.total_amount ≡ sum_items numeric own t.order_items
  updated-total own set t row keeps total found =
      let self = find_order-update_self own set t.orders keeps in
      elim (Option-cases (find_order own t.orders)) [
        | inl missing ↦ ground (arith, missing, self, found)
        | inr (old, there) ↦
            let is = some-injective _ _ (sym found ∙ self ∙ ap (map_found set) there) in
            ap (λ (r : OrderRow N). r.total_amount) is ∙ total old there
      ]

  update_order-IsWellFormed :
      (own : String) (set : OrderRow N → OrderRow N) (t : Tables N)
      → KeepsKey set
      → IsWellFormedBut own t
      → ((row : OrderRow N)
          → find_order own t.orders ≡ some row
          → (set row).total_amount ≡ sum_items numeric own t.order_items)
      → IsWellFormed (record t { orders = update_order own set t.orders })
  update_order-IsWellFormed own set t keeps h total = record {
    unique_orders = UniqueOrders-update own set t.orders keeps h.unique_orders;
    unique_items = h.unique_items;
    owned = AllOwned-update own set t.orders t.order_items keeps h.owned;
    totals = λ oid row found. elim (Bool-cases (str_eq own oid)) [
      | inr apart ↦
          h.totals oid row apart
            (sym (find_order-update_other own oid set t.orders keeps apart) ∙ found)
      | inl same ↦
          subst
            (λ (o : String).
              find_order o (update_order own set t.orders) ≡ some row
              → row.total_amount ≡ sum_items numeric o t.order_items)
            ((eq_iff own oid).0 same) (updated-total own set t row keeps total) found
    ];
  }

  -- An event of one order: its row alone is written.
  set_order-IsWellFormed :
      (own : String) (set : OrderRow N → OrderRow N) (t t' : Tables N)
      → set_order own set t ≡ some t'
      → KeepsKey set
      → ((r : OrderRow N) → (set r).total_amount ≡ r.total_amount)
      → IsWellFormed t
      → IsWellFormed t'
  set_order-IsWellFormed own set t t' h keeps same wf = rw (← some-injective _ _ h) (
      update_order-IsWellFormed own set t keeps (but own t wf)
        λ row found. same row ∙ wf.totals own row found)

  -- A new row has the sum of no lines.
  created-total :
      (new : OrderRow N) (t : Tables N) (row : OrderRow N)
      → new.total_amount ≡ numeric.zero
      → AllOwned t.orders t.order_items
      → has_order new.order_id t.orders ≡ false
      → find_order new.order_id (t.orders ++ new ∷ []) ≡ some row
      → row.total_amount ≡ sum_items numeric new.order_id t.order_items
  unfolding sum_items
  created-total new t row starts owned fresh found =
      let none_yet : find_order new.order_id t.orders ≡ none =
        elim (Option-cases (find_order new.order_id t.orders)) [
          | inl missing ↦ missing
          | inr (old, there) ↦ ground (arith, there, fresh)
        ] in
      let is =
        some-injective _ _
          (sym (find_order-append new.order_id t.orders new none_yet refl) ∙ found) in
      let no_lines = AllOwned-none new.order_id t.orders t.order_items owned fresh in
      rw no_lines (ap (λ (r : OrderRow N). r.total_amount) (sym is) ∙ starts)

  insert_order-IsWellFormed :
      (now : ℕ) (own c m : String) (version : ℕ) (t : Tables N)
      → IsWellFormed t
      → IsWellFormed (insert_order numeric now own c m version t)
  unfolding insert_order
  insert_order-IsWellFormed now own c m version t wf =
      let new = created_row numeric now own c m version in
      elim (Bool-cases (has_order own t.orders)) [
        | inl there ↦ rw there wf
        | inr fresh ↦ rw fresh (record {
          unique_orders = UniqueOrders-append t.orders new wf.unique_orders fresh;
          unique_items = wf.unique_items;
          owned = AllOwned-grow t.orders new t.order_items wf.owned;
          totals = λ oid row found. elim (Bool-cases (str_eq own oid)) [
            | inr apart ↦
                wf.totals oid row (sym (find_order-append_other oid t.orders new apart) ∙ found)
            | inl same ↦
                subst
                  (λ (o : String).
                    find_order o (t.orders ++ new ∷ []) ≡ some row
                    → row.total_amount ≡ sum_items numeric o t.order_items)
                  ((eq_iff own oid).0 same) (created-total new t row refl wf.owned fresh) found
          ];
        })
      ]

  sum_items-upsert_other :
      (new : ItemRow N) (oid : String) (rows : List (ItemRow N))
      → str_eq new.order_id oid ≡ false
      → sum_items numeric oid (upsert_item new rows) ≡ sum_items numeric oid rows
  unfolding sum_items
  sum_items-upsert_other new oid rows apart = rw (select-upsert_other oid new rows apart) refl

  insert_item-IsWellFormedBut :
      (new : ItemRow N) (t t' : Tables N)
      → insert_item new t ≡ some t'
      → IsWellFormed t
      → IsWellFormedBut new.order_id t'
  unfolding insert_item
  insert_item-IsWellFormedBut new t t' h wf = elim (Bool-cases (has_order new.order_id t.orders)) [
    | inr missing ↦ ground (arith, missing, h)
    | inl owner ↦ rw (← some-injective _ _ (rw owner at h)) (record {
      unique_orders = wf.unique_orders;
      unique_items = UniqueItems-upsert new t.order_items wf.unique_items;
      owned = AllOwned-upsert t.orders new t.order_items owner wf.owned;
      totals = λ oid row apart found.
          wf.totals oid row found ∙ sym (sum_items-upsert_other new oid t.order_items apart);
    })
  ]

  update_total-IsWellFormed :
      (now : ℕ) (own : String) (version : ℕ) (t t' : Tables N)
      → update_total numeric now own version t ≡ some t'
      → IsWellFormedBut own t
      → IsWellFormed t'
  unfolding update_total
  update_total-IsWellFormed now own version t t' h wf =
      elim (Bool-cases (numeric.fits_amount (sum_items numeric own t.order_items))) [
        | inr too_large ↦ ground (arith, too_large, h)
        | inl fits ↦
            rw (← some-injective _ _ (rw fits at h))
              (update_order-IsWellFormed own _ t (λ r. refl) wf λ row found. refl)
      ]

  project_payload-IsWellFormed :
      (now : ℕ) (own : String) (version : ℕ) (p : Payload F) (t t' : Tables N)
      → project_payload numeric now own version p t ≡ some t'
      → IsWellFormed t
      → IsWellFormed t'
  unfolding project_payload add_line
  project_payload-IsWellFormed now own version (creation c m _ _) t t' h wf =
      rw (← some-injective _ _ h) (insert_order-IsWellFormed now own c m version t wf)
  project_payload-IsWellFormed now own version (item line) t t' h wf =
      let (row, fits, h₁) = bind_some (item_row numeric now own line) _ h in
      let (t₁, inserted, h₂) = bind_some (insert_item row t) _ h₁ in
      let its = item_row-order_id numeric now own line row fits in
      update_total-IsWellFormed now own version t₁ t' h₂
        (subst (λ o. IsWellFormedBut o t₁) its (insert_item-IsWellFormedBut row t t₁ inserted wf))
  project_payload-IsWellFormed now own version _ t t' h wf =
      set_order-IsWellFormed own _ t t' h (λ r. refl) (λ r. refl) wf

  -- Where the tables keep the keys of their schema, and every order's total is the sum of its
  -- lines, this is so after the projection of any event.
  pub project-IsWellFormed :
      (now : ℕ) (e : Event F) (t t' : Tables N)
      → IsWellFormed t
      → project numeric now e t ≡ some t'
      → IsWellFormed t'
  unfolding project
  project-IsWellFormed now e t t' wf h =
      let (version, _, h₁) = bind_some (int4 e.aggregate_version) _ h in
      project_payload-IsWellFormed now e.aggregate_id version e.payload t t' h₁ wf
