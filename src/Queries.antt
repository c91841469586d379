-- ===== src/Queries.antt =====
-- api/routers/query_router.py: the read side. Its answers are JSON documents, of a type `J`. The
-- statements of `get_order` and `list_orders` join each order's row with its items; that is the
-- list of the items whose foreign key is the row's, in the plan's order.
pub mod CacheAside
pub mod Freshness
pub mod Answers
pub mod Invalidation
pub mod CatchUp
pub mod Sharing
pub mod Interleaving
pub mod Statement
pub mod Listing
pub mod Pages
pub mod Stats
pub mod Audit
use Prim.Native.String.{◌++◌}
use event_sourcing_cqrs.Prelude.{
  ℕ, String, str_eq, Option, none, some, List, [], ◌∷◌, map, select, foldl, Bool, true, false,
  length, if◌then◌else◌,
}
use event_sourcing_cqrs.Events.{
  OrderStatus, pending, confirmed, paid, shipped, delivered, cancelled, event_type,
}
use event_sourcing_cqrs.Exec.{Exec, driver, order_not_found, pure, raise, ◌>>=◌, ◌>>◌}
use event_sourcing_cqrs.Services.Redis.{Redis}
use event_sourcing_cqrs.Services.Postgres.{Postgres, Plan}
use event_sourcing_cqrs.Numeric.{Numeric}
use event_sourcing_cqrs.Schemas.{OrderItemView, OrderView, EventHistoryItem}
use event_sourcing_cqrs.ReadModel.{OrderRow, ItemRow, Tables, find_order, item_of}
use event_sourcing_cqrs.EventStore.{Document, EventCollection, get_events}
use event_sourcing_cqrs.Consumer.{order_key}

-- The dictionary that is made of a row: the amounts of the items come out of JSON as floats, the
-- total is still a decimal.
pub record OrderResult (F N : Type 0) : Type 0 where
  pub order_id : String
  pub customer_id : String
  pub customer_email : String
  pub status : String
  pub total_amount : N
  pub version : ℕ
  pub payment_id : Option String
  pub tracking_id : Option String
  pub created_at : Option F
  pub updated_at : Option F
  pub items : List (OrderItemView F)

-- What the router is given, with the library calls that it makes: `timestamp` of a datetime,
-- `str.upper`, orjson's `dumps` (with `default=float`) and `loads`, and FastAPI's rendering of a
-- response model.
pub record Readers (F N J : Type 0) : Type 1 where
  pub numeric : Numeric F N
  pub timestamp : ℕ → F
  pub upper : String → String
  pub dumps : OrderResult F N → String
  pub loads : String → Option J
  pub respond : OrderView F → J
  pub postgres : Postgres (Tables N)
  pub redis : Redis

-- The state of those services.
pub record Desk {F N J : Type 0} (r : Readers F N J) : Type 0 where
  pub postgres : r.postgres.State
  pub redis : r.redis.State

module _ {F N J A : Type 0} {r : Readers F N J} where
  abbrev pub on_postgres : Exec r.postgres.State A → Exec (Desk r) A
  on_postgres m s = let (a, s') = m s.postgres in (a, record s { postgres = s' })

  abbrev pub on_redis : Exec r.redis.State A → Exec (Desk r) A
  on_redis m s = let (a, s') = m s.redis in (a, record s { redis = s' })

-- The text of the `status` column.
abbrev pub status_text : OrderStatus → String
status_text pending = "PENDING"
status_text confirmed = "CONFIRMED"
status_text paid = "PAID"
status_text shipped = "SHIPPED"
status_text delivered = "DELIVERED"
status_text cancelled = "CANCELLED"

module _ {F N J : Type 0} (r : Readers F N J) where
  abbrev pub item_view : ItemRow N → OrderItemView F
  item_view i = record {
    product_id = i.product_id;
    product_name = i.product_name;
    quantity = i.quantity;
    unit_price = r.numeric.to_float i.unit_price;
    line_total = r.numeric.to_float i.line_total;
  }

  -- The dictionary of an order's row and the rows of its items.
  abbrev pub result_of : OrderRow N → List (ItemRow N) → OrderResult F N
  result_of row items = record {
    order_id = row.order_id;
    customer_id = row.customer_id;
    customer_email = row.customer_email;
    status = status_text row.status;
    total_amount = row.total_amount;
    version = row.version;
    payment_id = row.payment_id;
    tracking_id = row.tracking_id;
    created_at = some (r.timestamp row.created_at);
    updated_at = some (r.timestamp row.updated_at);
    items = map item_view items;
  }

  -- A row of `orders o LEFT JOIN order_items oi ON oi.order_id = o.order_id`, grouped by the order.
  abbrev pub joined : Plan → Tables N → OrderRow N → OrderResult F N
  joined plan t row = result_of row (plan.arrange (select (item_of row.order_id) t.order_items))

  abbrev join_found : Plan → Tables N → Option (OrderRow N) → Option (OrderResult F N)
  join_found plan t none = none
  join_found plan t (some row) = some (joined plan t row)

  -- The statement of `get_order`: the row of the order, or no row.
  unfoldable pub order_result : String → Plan → Tables N → Option (OrderResult F N)
  order_result order_id plan t = join_found plan t (find_order order_id t.orders)

  -- The response model's view of the dictionary.
  abbrev pub view_of : OrderResult F N → OrderView F
  view_of d = record {
    order_id = d.order_id;
    customer_id = d.customer_id;
    customer_email = d.customer_email;
    status = d.status;
    items = d.items;
    total_amount = r.numeric.to_float d.total_amount;
    version = d.version;
    created_at = d.created_at;
    updated_at = d.updated_at;
    payment_id = d.payment_id;
    tracking_id = d.tracking_id;
  }

  -- `JSONResponse(content=orjson.loads(cached))`
  abbrev pub loaded : Option J → Exec (Desk r) J
  loaded none = raise (driver "JSONDecodeError")
  loaded (some doc) = pure doc

  -- A row is cached and answered; no row is a 404.
  abbrev pub answer_row : String → Option (OrderResult F N) → Exec (Desk r) J
  answer_row order_id none = raise (order_not_found order_id)
  answer_row order_id (some result) = do
    on_redis (r.redis.setex (order_key order_id) 3600 (r.dumps result))
    pure (r.respond (view_of result))

  abbrev pub fetch_order : String → Exec (Desk r) (Option (OrderResult F N))
  fetch_order order_id =
      on_postgres (r.postgres.fetch λ plan t. some (order_result order_id plan t))

  -- The way through Postgres.
  unfoldable pub read_order : String → Exec (Desk r) J
  read_order order_id = do row ← fetch_order order_id; answer_row order_id row

  -- `if cached:`, a text that is there and not empty.
  abbrev pub answer_cached : String → Option String → Exec (Desk r) J
  answer_cached order_id none = read_order order_id
  answer_cached order_id (some cached) =
      if str_eq cached "" then read_order order_id else loaded (r.loads cached)

  -- `get_order`
  unfoldable pub get_order : String → Exec (Desk r) J
  get_order order_id = do
    cached ← on_redis (r.redis.get (order_key order_id))
    answer_cached order_id cached

-- The response model's view of a stored event.
abbrev pub history_item : {F : Type 0} → Document F → EventHistoryItem F
history_item d = record {
  event_id = d.event.event_id;
  event_type = event_type d.event;
  aggregate_version = d.event.aggregate_version;
  occurred_at = d.event.occurred_at;
  payload = d.event.payload;
  correlation_id = d.event.correlation_id;
}

module _ {F : Type 0} (mongo : EventCollection F) where
  abbrev pub answer_events :
      String → List (Document F) → Exec mongo.State (List (EventHistoryItem F))
  answer_events order_id [] = raise (order_not_found order_id)
  answer_events order_id (d ∷ ds) = pure (map history_item (d ∷ ds))

  -- `get_order_events`
  unfoldable pub get_order_events : String → Exec mongo.State (List (EventHistoryItem F))
  get_order_events order_id = do events ← get_events mongo order_id; answer_events order_id events
