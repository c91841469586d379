-- ===== src/Queries/CacheAside.antt =====
-- The cache-aside read of `get_order` in api/routers/query_router.py, on every branch.
use event_sourcing_cqrs.Prelude.{
  String, ◌≡◌, refl, sym, ap, ◌∙◌, ◌⊎◌, inl, inr, Option, none, some, false, arith, str_eq, eq_iff,
  Bool-cases, Option-cases, some-injective,
}
use event_sourcing_cqrs.Exec.{Error, Result, ok, err, driver, order_not_found, Result-cases}
use event_sourcing_cqrs.Exec.Chain.{bind-keeps}
use event_sourcing_cqrs.Services.Postgres.{Plan}
use event_sourcing_cqrs.ReadModel.{Tables, find_order}
use event_sourcing_cqrs.Consumer.{order_key}
use event_sourcing_cqrs.Queries.{
  OrderResult, Readers, Desk, on_redis, order_result, view_of, fetch_order, loaded, answer_row,
  read_order, answer_cached, get_order,
}

module _ {F N J : Type 0} (r : Readers F N J) (oid : String) where
  -- What Redis holds for the order.
  abbrev pub cached_at : Desk r → Option String
  cached_at s = r.redis.lookup (order_key oid) s.redis

  -- Redis holds a text for the order that is not empty.
  abbrev pub Cached : String → Desk r → Type 0
  Cached text s = (cached_at s ≡ some text) × (str_eq text "" ≡ false)

  -- Redis holds nothing for the order, or the empty text.
  abbrev pub NotCached : Desk r → Type 0
  NotCached s = (cached_at s ≡ none) ⊎ (cached_at s ≡ some "")

  -- The state after the look into the cache.
  abbrev looked : Desk r → Desk r
  looked s = (on_redis (r.redis.get (order_key oid)) s).1

  -- A call of Redis or of PostgreSQL raised `e`: the look into the cache, the query after it, or the
  -- write to the cache.
  abbrev pub Raised : Error → Desk r → Type 0
  Raised e s =
      ((r.redis.get (order_key oid) s.redis).0 ≡ err e)
      ⊎ ((fetch_order r oid (looked s)).0 ≡ err e)
      ⊎ ((text : String) × ((r.redis.setex (order_key oid) 3600 text (looked s).redis).0 ≡ err e))

  -- How `get_order` ends: its result, and the states before and after.
  pub data Outcome : Result J → Desk r → Desk r → Type 1 where
    -- the cached document, as it was stored
    hit :
        {s s' : Desk r} (text : String) (doc : J)
        → Cached text s
        → r.loads text ≡ some doc
        → cached_at s' ≡ some text
        → Outcome (ok doc) s s'
    -- the order's row with its items, which the cache holds from now on
    read :
        {s s' : Desk r} (plan : Plan) (result : OrderResult F N)
        → NotCached s
        → order_result r oid plan (r.postgres.tables s.postgres) ≡ some result
        → cached_at s' ≡ some (r.dumps result)
        → Outcome (ok (r.respond (view_of r result))) s s'
    -- no row
    missing :
        {s s' : Desk r}
        → NotCached s
        → find_order oid (r.postgres.tables s.postgres).orders ≡ none
        → cached_at s' ≡ cached_at s
        → Outcome (err (order_not_found oid)) s s'
    -- a cached text that is no JSON
    garbled :
        {s s' : Desk r} (text : String)
        → Cached text s
        → r.loads text ≡ none
        → Outcome (err (driver "JSONDecodeError")) s s'
    -- an exception of a service
    broken : {s s' : Desk r} (e : Error) → Raised e s → Outcome (err e) s s'

  join_found-none :
      (plan : Plan) (s : Desk r)
      → order_result r oid plan (r.postgres.tables s.postgres) ≡ none
      → find_order oid (r.postgres.tables s.postgres).orders ≡ none
  unfolding order_result
  join_found-none plan s h =
      elim (Option-cases (find_order oid (r.postgres.tables s.postgres).orders)) [
        | inl missing_row ↦ missing_row
        | inr (row, found) ↦ ground (arith, found, h)
      ]

  abbrev tables_of : Desk r → Tables N
  tables_of s = r.postgres.tables s.postgres

  answer_row-tables :
      (o : Option (OrderResult F N)) (s : Desk r) → tables_of (answer_row r oid o s).1 ≡ tables_of s
  answer_row-tables none s = refl
  answer_row-tables (some result) s =
      bind-keeps tables_of (on_redis (r.redis.setex (order_key oid) 3600 (r.dumps result))) _
        (λ s. refl) (λ _ s. refl) s

  read_order-tables : (s : Desk r) → tables_of (read_order r oid s).1 ≡ tables_of s
  unfolding read_order
  read_order-tables =
      bind-keeps tables_of (fetch_order r oid) (answer_row r oid)
        (λ s. r.postgres.fetch_keeps _ s.postgres) answer_row-tables

  loaded-tables : (o : Option J) (s : Desk r) → tables_of (loaded r o s).1 ≡ tables_of s
  loaded-tables none s = refl
  loaded-tables (some doc) s = refl

  answer_cached-tables :
      (o : Option String) (s : Desk r) → tables_of (answer_cached r oid o s).1 ≡ tables_of s
  answer_cached-tables none s = read_order-tables s
  answer_cached-tables (some text) s = elim (Bool-cases (str_eq text "")) [
    | inl empty ↦ rw empty (read_order-tables s)
    | inr full ↦ rw full (loaded-tables (r.loads text) s)
  ]

  pub get_order-tables : (s : Desk r) → tables_of (get_order r oid s).1 ≡ tables_of s
  unfolding get_order
  get_order-tables =
      bind-keeps tables_of (on_redis (r.redis.get (order_key oid))) (answer_cached r oid)
        (λ s. refl) answer_cached-tables

  module _ (s : Desk r) where
    looked-cached : cached_at (looked s) ≡ cached_at s
    looked-cached = r.redis.get_keeps (order_key oid) (order_key oid) s.redis

    answer_row-Outcome :
        (plan : Plan) (o : Option (OrderResult F N)) (t : Desk r)
        → NotCached s
        → t.redis ≡ (looked s).redis
        → order_result r oid plan (tables_of s) ≡ o
        → Outcome (answer_row r oid o t).0 s (answer_row r oid o t).1
    answer_row-Outcome plan none t empty same found =
        missing empty (join_found-none plan s found)
          (ap (r.redis.lookup (order_key oid)) same ∙ looked-cached)
    answer_row-Outcome plan (some result) t empty same found =
        let key = order_key oid in
        elim (Result-cases (r.redis.setex key 3600 (r.dumps result) t.redis).0) [
          | inl (_, done) ↦
              rw done (read plan result empty found (r.redis.setex_returns key 3600 _ t.redis done))
          | inr (e, failed) ↦ rw failed (broken e (inr (inr (r.dumps result, rw same at failed))))
        ]

    read_order-Outcome :
        NotCached s → Outcome (read_order r oid (looked s)).0 s (read_order r oid (looked s)).1
    unfolding read_order
    read_order-Outcome empty = elim (Result-cases (fetch_order r oid (looked s)).0) [
      | inl (o, done) ↦
          let plan = r.postgres.plan s.postgres in
          let there : order_result r oid plan (tables_of s) ≡ o =
            some-injective _ _ (r.postgres.fetch_returns _ s.postgres o done) in
          rw done (answer_row-Outcome plan o _ empty refl there)
      | inr (e, failed) ↦ rw failed (broken e (inr (inl failed)))
    ]

    loaded-Outcome :
        (text : String) (o : Option J) (t : Desk r)
        → Cached text s
        → r.loads text ≡ o
        → cached_at t ≡ cached_at s
        → Outcome (loaded r o t).0 s (loaded r o t).1
    loaded-Outcome text none t held parsed same = garbled text held parsed
    loaded-Outcome text (some doc) t held parsed same = hit text doc held parsed (same ∙ held.0)

    answer_cached-Outcome :
        (o : Option String)
        → cached_at s ≡ o
        → Outcome (answer_cached r oid o (looked s)).0 s (answer_cached r oid o (looked s)).1
    answer_cached-Outcome none held = read_order-Outcome (inl held)
    answer_cached-Outcome (some text) held = elim (Bool-cases (str_eq text "")) [
      | inl empty ↦
          rw empty (read_order-Outcome (inr (held ∙ ap (λ x. some x) ((eq_iff text "").0 empty))))
      | inr full ↦
          rw full (loaded-Outcome text (r.loads text) (looked s) (held, full) refl looked-cached)
    ]

    get_order-Outcome : Outcome (get_order r oid s).0 s (get_order r oid s).1
    unfolding get_order
    get_order-Outcome = elim (Result-cases (r.redis.get (order_key oid) s.redis).0) [
      | inl (o, done) ↦
          rw done
            (answer_cached-Outcome o (sym (r.redis.get_returns (order_key oid) s.redis o done)))
      | inr (e, failed) ↦ rw failed (broken e (inl failed))
    ]

    -- `get_order` changes no table, and ends in one of five ways: it answers the document that
    -- Redis holds for the order; Redis holds nothing for it, or the empty text, and it answers
    -- the order's row with its items, which Redis holds from then on; there is no row either,
    -- and it raises the 404; the text that Redis holds is no JSON; or a service raised.
    pub get_order_lem :
        (r.postgres.tables (get_order r oid s).1.postgres ≡ r.postgres.tables s.postgres)
        × Outcome (get_order r oid s).0 s (get_order r oid s).1
    get_order_lem = (get_order-tables s, get_order-Outcome)
