-- ===== src/Queries/Freshness.antt =====
-- Whether the cache of api/routers/query_router.py agrees with the read model: what `get_order`
-- keeps, and what the projection in consumers/main.py restores.
use text.Mathlib.TextLemmas.{append_cancel_left}
use event_sourcing_cqrs.Prelude.{
  String, ◌≡◌, sym, ap, ◌∙◌, ◌⊎◌, inl, inr, Option, none, some, arith, str_eq, eq_iff, Bool-cases,
  Option-cases, some-injective,
}
use event_sourcing_cqrs.Exec.{Result-cases}
use event_sourcing_cqrs.Services.Postgres.{Plan}
use event_sourcing_cqrs.ReadModel.{Tables}
use event_sourcing_cqrs.Consumer.{order_key}
use event_sourcing_cqrs.Queries.{
  OrderResult, Readers, Desk, order_result, fetch_order, answer_row, read_order, answer_cached,
  get_order,
}

pub order_key-injective : (a b : String) → order_key a ≡ order_key b → a ≡ b
unfolding order_key
order_key-injective a b h = append_cancel_left "order:" a b h

module _ {F N J : Type 0} (r : Readers F N J) where
  -- Redis holds nothing for the order, or what the read model has.
  abbrev pub IsFresh : Tables N → r.redis.State → String → Type 1
  IsFresh t redis oid =
      (r.redis.lookup (order_key oid) redis ≡ none)
      ⊎ ((plan : Plan) × (result : OrderResult F N) × (order_result r oid plan t ≡ some result)
          × (r.redis.lookup (order_key oid) redis ≡ some (r.dumps result)))

  -- A write to the cache of an order leaves what Redis holds for an order, or it is that order and
  -- Redis holds the text.
  pub setex-either :
      (own oid text : String) (redis : r.redis.State)
      → (r.redis.lookup (order_key oid) (r.redis.setex (order_key own) 3600 text redis).1
          ≡ r.redis.lookup (order_key oid) redis)
        ⊎ (own ≡ oid)
          × (r.redis.lookup (order_key oid) (r.redis.setex (order_key own) 3600 text redis).1
              ≡ some text)
  setex-either own oid text redis = elim (Bool-cases (str_eq own oid)) [
    | inr apart ↦ inl (
        r.redis.setex_others (order_key own) 3600 text (order_key oid) redis
          λ same. ground (arith, apart, eq_iff own oid, order_key-injective own oid same))
    | inl same ↦
        let is = (eq_iff own oid).0 same in
        let at = λ (o : String).
          r.redis.lookup (order_key o) (r.redis.setex (order_key own) 3600 text redis).1 in
        elim (Result-cases (r.redis.setex (order_key own) 3600 text redis).0) [
          | inl (_, done) ↦
              inr (is, ap at (sym is) ∙ r.redis.setex_returns (order_key own) 3600 text redis done)
          | inr (e, failed) ↦ elim (r.redis.setex_raises (order_key own) 3600 text redis e failed) [
            | inl kept ↦
                inl (ap at (sym is) ∙ kept ∙ ap (λ o. r.redis.lookup (order_key o) redis) is)
            | inr written ↦ inr (is, ap at (sym is) ∙ written)
          ]
        ]
  ]

  module _ (t : Tables N) (oid : String) where
    -- Redis holds the same for the order.
    pub IsFresh-same :
        (redis redis' : r.redis.State)
        → r.redis.lookup (order_key oid) redis' ≡ r.redis.lookup (order_key oid) redis
        → IsFresh t redis oid
        → IsFresh t redis' oid
    IsFresh-same redis redis' same fresh = rw same fresh

    -- What the read model has for an order is written to the cache.
    setex-IsFresh :
        (own : String) (plan : Plan) (result : OrderResult F N) (redis : r.redis.State)
        → order_result r own plan t ≡ some result
        → IsFresh t redis oid
        → IsFresh t (r.redis.setex (order_key own) 3600 (r.dumps result) redis).1 oid
    setex-IsFresh own plan result redis found fresh =
        elim (setex-either own oid (r.dumps result) redis) [
          | inl same ↦ IsFresh-same redis _ same fresh
          | inr (is, written) ↦
              inr (plan, result, ap (λ o. order_result r o plan t) (sym is) ∙ found, written)
        ]

  abbrev FreshAt : String → Desk r → Type 1
  FreshAt oid s = IsFresh (r.postgres.tables s.postgres) s.redis oid

  module _ (own oid : String) where
    answer_row-FreshAt :
        (plan : Plan) (o : Option (OrderResult F N)) (s : Desk r)
        → order_result r own plan (r.postgres.tables s.postgres) ≡ o
        → FreshAt oid s
        → FreshAt oid (answer_row r own o s).1
    answer_row-FreshAt plan none s found fresh = fresh
    answer_row-FreshAt plan (some result) s found fresh =
        let after = setex-IsFresh _ oid own plan result s.redis found fresh in
        elim (Result-cases (r.redis.setex (order_key own) 3600 (r.dumps result) s.redis).0) [
          | inl (_, done) ↦ rw done after
          | inr (_, failed) ↦ rw failed after
        ]

    read_order-FreshAt : (s : Desk r) → FreshAt oid s → FreshAt oid (read_order r own s).1
    unfolding read_order
    read_order-FreshAt s fresh =
        let query = λ (plan : Plan) (t : Tables N). some (order_result r own plan t) in
        let tables = r.postgres.fetch_keeps query s.postgres in
        elim (Result-cases (fetch_order r own s).0) [
          | inl (o, done) ↦
              let plan = r.postgres.plan s.postgres in
              let there : order_result r own plan (r.postgres.tables s.postgres) ≡ o =
                some-injective _ _ (r.postgres.fetch_returns query s.postgres o done) in
              rw done (answer_row-FreshAt plan o _ (rw tables there) (rw tables fresh))
          | inr (_, failed) ↦ rw failed (rw tables fresh)
        ]

    answer_cached-FreshAt :
        (o : Option String) (s : Desk r) → FreshAt oid s → FreshAt oid (answer_cached r own o s).1
    answer_cached-FreshAt none s fresh = read_order-FreshAt s fresh
    answer_cached-FreshAt (some text) s fresh = elim (Bool-cases (str_eq text "")) [
      | inl empty ↦ rw empty (read_order-FreshAt s fresh)
      | inr full ↦ rw full (elim (Option-cases (r.loads text)) [
        | inl garbled ↦ rw garbled fresh
        | inr (doc, parsed) ↦ rw parsed fresh
      ])
    ]

    -- If Redis holds for an order nothing, or the text of what the read model has, this is so
    -- after `get_order` of that order or of another, however it ends.
    pub get_order-IsFresh :
        (s : Desk r)
        → IsFresh (r.postgres.tables s.postgres) s.redis oid
        → IsFresh (r.postgres.tables (get_order r own s).1.postgres) (get_order r own s).1.redis oid
    unfolding get_order
    get_order-IsFresh s fresh =
        let looked =
          IsFresh-same _ oid s.redis (r.redis.get (order_key own) s.redis).1
            (r.redis.get_keeps (order_key own) (order_key oid) s.redis) fresh in
        elim (Result-cases (r.redis.get (order_key own) s.redis).0) [
          | inl (o, done) ↦ rw done (answer_cached-FreshAt o _ looked)
          | inr (_, failed) ↦ rw failed looked
        ]
