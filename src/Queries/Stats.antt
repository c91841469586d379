-- ===== src/Queries/Stats.antt =====
-- The counts of `get_stats` in api/routers/query_router.py.
use event_sourcing_cqrs.Prelude.{
  ℕ, str_eq, ◌+◌, ◌≡◌, refl, Bool, true, false, List, [], ◌∷◌, arith, length, select,
  some-injective, if◌then◌else◌,
}
use event_sourcing_cqrs.Events.{
  OrderStatus, pending, confirmed, paid, shipped, delivered, cancelled,
}
use event_sourcing_cqrs.Exec.{ok}
use event_sourcing_cqrs.ReadModel.{OrderRow, Tables}
use event_sourcing_cqrs.Services.Postgres.{Plan}
use event_sourcing_cqrs.Queries.{Readers, Desk, status_text}
use event_sourcing_cqrs.Queries.Listing.{Stats, count_status, stats_of, get_stats}

-- The statuses, without their texts.
abbrev same_status : OrderStatus → OrderStatus → Bool
same_status pending pending = true
same_status confirmed confirmed = true
same_status paid paid = true
same_status shipped shipped = true
same_status delivered delivered = true
same_status cancelled cancelled = true
same_status _ _ = false

-- The texts tell the statuses apart.
status_text-same :
    (s status : OrderStatus) → str_eq (status_text s) (status_text status) ≡ same_status s status
status_text-same s pending =
    elim s as (λ k. str_eq (status_text k) (status_text pending) ≡ same_status k pending) [
      | pending ↦ refl
      | confirmed ↦ refl
      | paid ↦ refl
      | shipped ↦ refl
      | delivered ↦ refl
      | cancelled ↦ refl
    ]
status_text-same s confirmed =
    elim s as (λ k. str_eq (status_text k) (status_text confirmed) ≡ same_status k confirmed) [
      | pending ↦ refl
      | confirmed ↦ refl
      | paid ↦ refl
      | shipped ↦ refl
      | delivered ↦ refl
      | cancelled ↦ refl
    ]
status_text-same s paid =
    elim s as (λ k. str_eq (status_text k) (status_text paid) ≡ same_status k paid) [
      | pending ↦ refl
      | confirmed ↦ refl
      | paid ↦ refl
      | shipped ↦ refl
      | delivered ↦ refl
      | cancelled ↦ refl
    ]
status_text-same s shipped =
    elim s as (λ k. str_eq (status_text k) (status_text shipped) ≡ same_status k shipped) [
      | pending ↦ refl
      | confirmed ↦ refl
      | paid ↦ refl
      | shipped ↦ refl
      | delivered ↦ refl
      | cancelled ↦ refl
    ]
status_text-same s delivered =
    elim s as (λ k. str_eq (status_text k) (status_text delivered) ≡ same_status k delivered) [
      | pending ↦ refl
      | confirmed ↦ refl
      | paid ↦ refl
      | shipped ↦ refl
      | delivered ↦ refl
      | cancelled ↦ refl
    ]
status_text-same s cancelled =
    elim s as (λ k. str_eq (status_text k) (status_text cancelled) ≡ same_status k cancelled) [
      | pending ↦ refl
      | confirmed ↦ refl
      | paid ↦ refl
      | shipped ↦ refl
      | delivered ↦ refl
      | cancelled ↦ refl
    ]

module _ {N : Type 0} where
  -- The number of rows with a status.
  abbrev pub rows_with : OrderStatus → List (OrderRow N) → ℕ
  rows_with status [] = 0
  rows_with status (row ∷ rows) =
      (if same_status row.status status then 1 else 0) + rows_with status rows

  -- A test on the text of the status counts the rows with the status.
  count_status_lem :
      (status : OrderStatus) (rows : List (OrderRow N))
      → count_status (status_text status) rows ≡ rows_with status rows
  unfolding select
  count_status_lem status [] = refl
  count_status_lem status (row ∷ rows) =
      ground (arith, status_text-same row.status status, count_status_lem status rows)

-- The count that an answer has for a status.
abbrev pub count_for : {N : Type 0} → OrderStatus → Stats N → ℕ
count_for pending stats = stats.pending
count_for confirmed stats = stats.confirmed
count_for paid stats = stats.paid
count_for shipped stats = stats.shipped
count_for delivered stats = stats.delivered
count_for cancelled stats = stats.cancelled

module _ {F N J : Type 0} (r : Readers F N J) where
  stats_of-count_for :
      (plan : Plan) (t : Tables N) (status : OrderStatus)
      → count_for status (stats_of r plan t) ≡ rows_with status t.orders
  unfolding stats_of
  stats_of-count_for plan t pending = count_status_lem pending t.orders
  stats_of-count_for plan t confirmed = count_status_lem confirmed t.orders
  stats_of-count_for plan t paid = count_status_lem paid t.orders
  stats_of-count_for plan t shipped = count_status_lem shipped t.orders
  stats_of-count_for plan t delivered = count_status_lem delivered t.orders
  stats_of-count_for plan t cancelled = count_status_lem cancelled t.orders

  -- When `get_stats` returns, its total is the number of all orders, and for each of the six
  -- statuses its count is the number of orders with that status.
  pub get_stats_returns :
      (s : Desk r) (stats : Stats N)
      → (get_stats r s).0 ≡ ok stats
      → (stats.total_orders ≡ length (r.postgres.tables s.postgres).orders)
        × ((status : OrderStatus)
            → count_for status stats ≡ rows_with status (r.postgres.tables s.postgres).orders)
  unfolding get_stats stats_of
  get_stats_returns s stats h =
      let t = r.postgres.tables s.postgres in
      let plan = r.postgres.plan s.postgres in
      let same = some-injective _ _ (r.postgres.fetch_returns _ s.postgres stats h) in
      rw (← same) (refl, stats_of-count_for plan t)
