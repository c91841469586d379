-- ===== src/Queries/Invalidation.antt =====
-- The projection of consumers/main.py against the cache of api/routers/query_router.py: both use
-- one database and one Redis.
use event_sourcing_cqrs.Prelude.{
  ℕ, String, ◌≡◌, refl, sym, ap, subst, ◌∙◌, ◌⊎◌, inl, inr, Option, none, some, arith, str_eq,
  eq_iff, List, [], ◌∷◌, Bool-cases, Option-cases,
}
use event_sourcing_cqrs.Exec.{Exec, ok, ◌>>◌, Result-cases}
use event_sourcing_cqrs.Exec.Chain.{bind-keeps, bind-cases}
use event_sourcing_cqrs.Services.Postgres.{Plan}
use event_sourcing_cqrs.Services.Queue.{Queue}
use event_sourcing_cqrs.Services.Offsets.{Offsets}
use event_sourcing_cqrs.Events.{Event, event_type}
use event_sourcing_cqrs.EventStore.{EventCollection}
use event_sourcing_cqrs.ReadModel.{OrderRow, Tables, find_order}
use event_sourcing_cqrs.Projection.Frame.{Untouched, project-Untouched}
use event_sourcing_cqrs.Consumer.{
  DeadLetter, Sinks, Stage, on_postgres, order_key, processed_key, has_id, is_terminal,
  invalidate_cache, mark_processed, expire_if_terminal, commit, try_project, project_to_postgres,
}
use event_sourcing_cqrs.Consumer.Attempts.{project_to_postgres_returns}
use event_sourcing_cqrs.Consumer.Marks.{processed_key≢order_key}
use event_sourcing_cqrs.Consumer.Try.{try_project-postgres, try_project_returns}
use event_sourcing_cqrs.Queries.{Readers, order_result}
use event_sourcing_cqrs.Queries.Freshness.{IsFresh, IsFresh-same, order_key-injective}

-- The consumer beside the router, with a store, a queue and a group of its own.
abbrev pub sinks_of :
    {F N J : Type 0}
    → Readers F N J
    → EventCollection F
    → Queue (DeadLetter F)
    → Offsets
    → Sinks F N
sinks_of r mongo sqs group = record {
  numeric = r.numeric;
  postgres = r.postgres;
  redis = r.redis;
  mongo = mongo;
  sqs = sqs;
  group = group;
}

find_order-order_id :
    {N : Type 0} (oid : String) (rows : List (OrderRow N)) (row : OrderRow N)
    → find_order oid rows ≡ some row
    → row.order_id ≡ oid
unfolding find_order
find_order-order_id oid [] row h = ground (arith, h)
find_order-order_id oid (x ∷ xs) row h =
    ground (arith, find_order-order_id oid xs row, eq_iff x.order_id oid, h)

module _ {F N J : Type 0} (r : Readers F N J) (oid : String) where
  -- An order that a projection leaves alone is read as before.
  order_result-Untouched :
      (plan : Plan) (t t' : Tables N)
      → Untouched oid t t'
      → order_result r oid plan t' ≡ order_result r oid plan t
  unfolding order_result
  order_result-Untouched plan t t' (row_same, items_same) =
      elim (Option-cases (find_order oid t.orders)) [
        | inl missing ↦ rw (row_same, missing) refl
        | inr (row, found) ↦
            let own = find_order-order_id oid t.orders row found in
            rw (row_same, found, own, items_same) refl
      ]

  IsFresh-Untouched :
      (t t' : Tables N) (redis : r.redis.State)
      → Untouched oid t t'
      → IsFresh r t redis oid
      → IsFresh r t' redis oid
  IsFresh-Untouched t t' redis same (inl nothing) = inl nothing
  IsFresh-Untouched t t' redis same (inr (plan, result, found, held)) =
      inr (plan, result, order_result-Untouched plan t t' same ∙ found, held)

module _ {F N : Type 0} (k : Sinks F N) (oid : String) where
  abbrev pub held : Stage k → Option String
  held s = k.redis.lookup (order_key oid) s.redis

  pub mark_processed-held : (e : Event F) (s : Stage k) → held (mark_processed k e s).1 ≡ held s
  mark_processed-held e s = elim (Bool-cases (has_id e)) [
    | inl has ↦ rw has (
        k.redis.setex_others (processed_key e) 86400 "1" (order_key oid) s.redis
          (processed_key≢order_key e oid))
    | inr hasnt ↦ rw hasnt refl
  ]

  pub expire_if_terminal-held :
      (now : ℕ) (e : Event F) (s : Stage k) → held (expire_if_terminal k now e s).1 ≡ held s
  expire_if_terminal-held now e s = elim (Bool-cases (is_terminal (event_type e))) [
    | inl last ↦ rw last refl
    | inr goes_on ↦ rw goes_on refl
  ]

  abbrev marked : ℕ → ℕ → Event F → Exec (Stage k) (Unit {0})
  marked now n e = do mark_processed k e; expire_if_terminal k now e; commit k n

  -- The cached orders after the invalidation.
  marked-held : (now n : ℕ) (e : Event F) (s : Stage k) → held (marked now n e s).1 ≡ held s
  marked-held now n e = bind-keeps held (mark_processed k e) _ (mark_processed-held e) (λ _.
      bind-keeps held (expire_if_terminal k now e) (λ _. commit k n) (expire_if_terminal-held now e)
        (λ _ s. refl))

  -- A `try` block that returns has deleted the cached order of its event, and changed no other.
  try_project-held :
      (now n : ℕ) (e : Event F) (s : Stage k)
      → (try_project k now n e s).0 ≡ ok tt
      → ((k.redis.delete (order_key e.aggregate_id) s.redis).0 ≡ ok tt)
        × (held (try_project k now n e s).1
            ≡ k.redis.lookup (order_key oid) (k.redis.delete (order_key e.aggregate_id) s.redis).1)
  unfolding try_project invalidate_cache
  try_project-held now n e s h =
      elim (bind-cases (on_postgres (project_to_postgres k now e))
        (λ _. invalidate_cache k e.aggregate_id >> marked now n e) s) [
          | inr (_, _, broken) ↦ ground (arith, broken, h)
          | inl (_, _, projected) ↦
              elim (bind-cases (invalidate_cache k e.aggregate_id) (λ _. marked now n e)
                (on_postgres (project_to_postgres k now e) s).1) [
                  | inr (_, _, broken) ↦ ground (arith, projected, broken, h)
                  | inl (_, deleted, goes_on) ↦
                      (deleted, ap (λ x. held x.1) (projected ∙ goes_on) ∙ marked-held now n e _)
                ]
        ]

  pub delete-either :
      (own : String) (redis : k.redis.State)
      → (k.redis.lookup (order_key oid) (k.redis.delete (order_key own) redis).1
          ≡ k.redis.lookup (order_key oid) redis)
        ⊎ (k.redis.lookup (order_key oid) (k.redis.delete (order_key own) redis).1 ≡ none)
  delete-either own redis = elim (Bool-cases (str_eq own oid)) [
    | inr apart ↦ inl (
        k.redis.delete_others _ _ redis
          λ key. ground (arith, apart, eq_iff own oid, order_key-injective _ _ key))
    | inl same ↦
        subst
          (λ (o : String).
            (k.redis.lookup (order_key o) (k.redis.delete (order_key own) redis).1
              ≡ k.redis.lookup (order_key o) redis)
            ⊎ (k.redis.lookup (order_key o) (k.redis.delete (order_key own) redis).1 ≡ none))
          ((eq_iff own oid).0 same)
          (elim (Result-cases (k.redis.delete (order_key own) redis).0) [
            | inl (_, deleted) ↦ inr (k.redis.delete_returns _ redis deleted)
            | inr (e, failed) ↦ k.redis.delete_raises _ redis e failed
          ])
  ]

module _ {F N J : Type 0} (r : Readers F N J) (mongo : EventCollection F)
    (sqs : Queue (DeadLetter F)) (group : Offsets) where
  -- For every order Redis holds nothing, or the text of what the read model has. A `try` block
  -- of the consumer that returns, for any event, leaves this so, where the consumer and the
  -- router use one database and one Redis.
  pub try_project-IsFresh :
      (now n : ℕ) (e : Event F) (s : Stage (sinks_of r mongo sqs group))
      → (try_project (sinks_of r mongo sqs group) now n e s).0 ≡ ok tt
      → ((oid : String) → IsFresh r (r.postgres.tables s.postgres) s.redis oid)
      → (oid : String)
      → IsFresh r
          (r.postgres.tables (try_project (sinks_of r mongo sqs group) now n e s).1.postgres)
          (try_project (sinks_of r mongo sqs group) now n e s).1.redis
          oid
  try_project-IsFresh now n e s h fresh oid =
      let k = sinks_of r mongo sqs group in
      let s' = (try_project k now n e s).1 in
      let (deleted, after) = try_project-held k oid now n e s h in
      elim (Bool-cases (str_eq e.aggregate_id oid)) [
        | inl same ↦
            let gone = r.redis.delete_returns (order_key e.aggregate_id) s.redis deleted in
            inl (
              after
              ∙ ap
                  (λ o.
                    r.redis.lookup (order_key o)
                      (r.redis.delete (order_key e.aggregate_id) s.redis).1)
                  (sym ((eq_iff _ _).0 same))
              ∙ gone)
        | inr apart ↦
            let projected =
              project_to_postgres_returns k now e s.postgres (try_project_returns k now n e s h)
              ∙ ap (λ p. some (r.postgres.tables p)) (sym (try_project-postgres k now n e s)) in
            IsFresh-same r _ oid s.redis s'.redis
              (after
                ∙ r.redis.delete_others _ _ s.redis λ key.
                  ground (arith, apart, eq_iff e.aggregate_id oid, order_key-injective _ _ key))
              (IsFresh-Untouched r oid _ _ s.redis
                (project-Untouched r.numeric now e oid _ _ apart projected) (fresh oid))
      ]
