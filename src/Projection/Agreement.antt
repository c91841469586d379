-- ===== src/Projection/Agreement.antt =====
-- A row of the read model against the aggregate, event by event.
use event_sourcing_cqrs.Prelude.{ℕ, String, ◌≡◌, ◌≢◌, refl, none, some, arith}
use event_sourcing_cqrs.Float.{Float}
use event_sourcing_cqrs.Events.{
  LineItem, Payload, creation, item, Event, event_type, payload_type, order_created,
}
use event_sourcing_cqrs.Numeric.{Numeric}
use event_sourcing_cqrs.Aggregate.{OrderAggregate, new_aggregate, apply, apply_payload}
use event_sourcing_cqrs.ReadModel.{OrderRow, ItemRow, Tables, find_order, sum_items}
use event_sourcing_cqrs.ReadModel.Rows.{KeepsKey, find_order-update_self, find_order-append}
use event_sourcing_cqrs.Projection.{
  int4, created_row, set_order, insert_order, insert_item, update_total, item_row, add_line,
  project_payload, project, bind_some,
}

-- A row shows an aggregate.
pub record Agrees {F N : Type 0} (row : OrderRow N) (agg : OrderAggregate F) : Type 0 where
  pub order_id : row.order_id ≡ agg.order_id
  pub status : row.status ≡ agg.status
  pub version : row.version ≡ agg.version
  pub customer_id : row.customer_id ≡ agg.customer_id
  pub customer_email : row.customer_email ≡ agg.customer_email
  pub payment_id : row.payment_id ≡ agg.payment_id
  pub tracking_id : row.tracking_id ≡ agg.tracking_id

-- The tables hold a row of the order that shows the aggregate.
abbrev pub Shows : {F N : Type 0} → Tables N → String → OrderAggregate F → Type 0
Shows {F} {N} t oid agg = (row : OrderRow N) × (find_order oid t.orders ≡ some row) × Agrees row agg

module _ {F N : Type 0} (float : Float F) (numeric : Numeric F N) (now : ℕ) where
  set_order-Shows :
      (oid : String) (set : OrderRow N → OrderRow N) (t t' : Tables N) (row : OrderRow N)
      (agg : OrderAggregate F)
      → KeepsKey set
      → find_order oid t.orders ≡ some row
      → set_order oid set t ≡ some t'
      → Agrees (set row) agg
      → Shows t' oid agg
  set_order-Shows oid set t t' row agg keeps found h agrees =
      (set row, ground (arith, find_order-update_self oid set t.orders keeps), agrees)

  update_total-Shows :
      (oid : String) (version : ℕ) (t t' : Tables N) (row : OrderRow N) (agg : OrderAggregate F)
      → find_order oid t.orders ≡ some row
      → update_total numeric now oid version t ≡ some t'
      → Agrees row agg
      → Shows t' oid (record agg { version = version })
  unfolding update_total
  update_total-Shows oid version t t' row agg found h agrees =
      let total = sum_items numeric oid t.order_items in
      let set = λ (r : OrderRow N). record r {
        total_amount = total;
        version = version;
        updated_at = now;
      } in
      (
        set row,
        ground (arith, find_order-update_self oid set t.orders (λ r. refl)),
        record {
          order_id = agrees.order_id;
          status = agrees.status;
          version = refl;
          customer_id = agrees.customer_id;
          customer_email = agrees.customer_email;
          payment_id = agrees.payment_id;
          tracking_id = agrees.tracking_id;
        },
      )

  insert_item-orders :
      (row : ItemRow N) (t t' : Tables N) → insert_item row t ≡ some t' → t'.orders ≡ t.orders
  unfolding insert_item
  insert_item-orders row t t' h = ground arith

  add_line-Shows :
      (oid : String) (line : LineItem F) (version : ℕ) (t t' : Tables N) (row : OrderRow N)
      (agg : OrderAggregate F)
      → find_order oid t.orders ≡ some row
      → add_line numeric now oid line version t ≡ some t'
      → Agrees row agg
      → Shows t' oid (record agg { version = version })
  unfolding add_line
  add_line-Shows oid line version t t' row agg found h agrees =
      let (new, _, stored) = bind_some (item_row numeric now oid line) _ h in
      let (t₁, inserted, totalled) = bind_some (insert_item new t) _ stored in
      update_total-Shows oid version t₁ t' row agg (rw (insert_item-orders new t t₁ inserted) found)
        totalled agrees

  -- One more event: the row follows the aggregate.
  project_payload-Shows :
      (oid : String) (version : ℕ) (p : Payload F) (t t' : Tables N) (agg : OrderAggregate F)
      → payload_type p ≢ order_created
      → Shows t oid agg
      → project_payload numeric now oid version p t ≡ some t'
      → Shows t' oid (apply_payload float (record agg { version = version }) p)
  unfolding project_payload apply_payload
  project_payload-Shows oid version (creation _ _ _ _) t t' agg late shown h = absurd (late refl)
  project_payload-Shows oid version (item line) t t' agg late (row, found, agrees) h =
      let (row', found', agrees') = add_line-Shows oid line version t t' row agg found h agrees in
      (
        row',
        found',
        record {
          order_id = agrees'.order_id;
          status = agrees'.status;
          version = agrees'.version;
          customer_id = agrees'.customer_id;
          customer_email = agrees'.customer_email;
          payment_id = agrees'.payment_id;
          tracking_id = agrees'.tracking_id;
        },
      )
  project_payload-Shows oid version _ t t' agg late (row, found, agrees) h =
      set_order-Shows oid _ t t' row _ (λ r. refl) found h
        (record {
          order_id = agrees.order_id;
          status = refl;
          version = refl;
          customer_id = agrees.customer_id;
          customer_email = agrees.customer_email;
          payment_id = ground arith;
          tracking_id = ground arith;
        })

  -- The first event: the row is inserted.
  project_payload-created :
      (oid : String) (version : ℕ) (p : Payload F) (t t' : Tables N)
      → payload_type p ≡ order_created
      → find_order oid t.orders ≡ none
      → project_payload numeric now oid version p t ≡ some t'
      → Shows t' oid
          (apply_payload float (record (new_aggregate float oid) { version = version }) p)
  unfolding project_payload insert_order apply_payload
  project_payload-created oid version (creation c m _ _) t t' first missing h =
      let row = created_row numeric now oid c m version in
      (
        row,
        ground (arith, find_order-append oid t.orders row missing refl),
        record {
          order_id = refl;
          status = refl;
          version = refl;
          customer_id = refl;
          customer_email = refl;
          payment_id = refl;
          tracking_id = refl;
        },
      )
  project_payload-created oid version _ t t' first missing h = cc

int4_lem : (n v : ℕ) → int4 n ≡ some v → v ≡ n
int4_lem n v h = ground arith

module _ {F N : Type 0} (float : Float F) (numeric : Numeric F N) where
  pub project-Shows :
      (now : ℕ) (e : Event F) (t t' : Tables N) (agg : OrderAggregate F)
      → event_type e ≢ order_created
      → Shows t e.aggregate_id agg
      → project numeric now e t ≡ some t'
      → Shows t' e.aggregate_id (apply float agg e)
  unfolding project apply
  project-Shows now e t t' agg late shown h =
      let (v, fits, done) = bind_some (int4 e.aggregate_version) _ h in
      let same = int4_lem e.aggregate_version v fits in
      project_payload-Shows float numeric now e.aggregate_id e.aggregate_version e.payload t t' agg
        late shown (rw same at done)

  pub project-created :
      (now : ℕ) (e : Event F) (t t' : Tables N)
      → event_type e ≡ order_created
      → find_order e.aggregate_id t.orders ≡ none
      → project numeric now e t ≡ some t'
      → Shows t' e.aggregate_id (apply float (new_aggregate float e.aggregate_id) e)
  unfolding project apply
  project-created now e t t' first missing h =
      let (v, fits, done) = bind_some (int4 e.aggregate_version) _ h in
      let same = int4_lem e.aggregate_version v fits in
      project_payload-created float numeric now e.aggregate_id e.aggregate_version e.payload t t'
        first missing (rw same at done)
