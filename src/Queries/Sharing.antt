-- ===== src/Queries/Sharing.antt =====
-- Concurrent calls of `get_order` in api/routers/query_router.py, and the consumer of
-- consumers/main.py beside them. A call looks into the cache, reads the database, and writes the
-- cache; between these three steps other calls go on, and each attempt of the consumer to project an
-- event and each other call that it makes is a step of its own. The steps of the consumer come in any
-- order, of which that of its loop is one (Queries/Interleaving/Rounds).
use event_sourcing_cqrs.Prelude.{ℕ, String, ◌≡◌, ◌⊎◌, none, some, List, ◌∷◌, ◌++◌, Memᴰ}
use event_sourcing_cqrs.Exec.{Error, ok}
use event_sourcing_cqrs.Services.Postgres.{Plan}
use event_sourcing_cqrs.Services.Queue.{Queue}
use event_sourcing_cqrs.Services.Offsets.{Offsets}
use event_sourcing_cqrs.Events.{Event}
use event_sourcing_cqrs.EventStore.{EventCollection}
use event_sourcing_cqrs.ReadModel.{Tables}
use event_sourcing_cqrs.Projection.{project}
use event_sourcing_cqrs.Publisher.{Message}
use event_sourcing_cqrs.Consumer.{
  DeadLetter, Sinks, Stage, order_key, already_processed, invalidate_cache, mark_processed,
  expire_if_terminal, send_to_dlq, commit,
}
use event_sourcing_cqrs.Queries.{OrderResult, Readers, Desk, order_result, fetch_order}
use event_sourcing_cqrs.Queries.Invalidation.{sinks_of}

module _ {F N J : Type 0} (r : Readers F N J) (mongo : EventCollection F)
    (sqs : Queue (DeadLetter F)) (group : Offsets) where
  -- The servers; what calls of `get_order` have read and not yet written to the cache; and the
  -- tables that the read model has had so far.
  pub record Shared : Type 0 where
    pub servers : Stage (sinks_of r mongo sqs group)
    pub unwritten : List (String × OrderResult F N)
    pub had : List (Tables N)

  abbrev pub desk_of : Shared → Desk r
  desk_of sh = record { postgres = sh.servers.postgres; redis = sh.servers.redis }

  abbrev pub sinks : Sinks F N
  sinks = sinks_of r mongo sqs group

  -- The calls of the consumer but those to PostgreSQL.
  pub data Call : Type 0 where
    look_processed : Event F → Call
    invalidate : String → Call
    mark : Event F → Call
    expire : ℕ → Event F → Call
    bury : Message F → Error → Call
    commit_offset : ℕ → Call

  -- The servers after a call, however it ends.
  abbrev pub after : Call → Stage sinks → Stage sinks
  after (look_processed e) s = (already_processed sinks e s).1
  after (invalidate order_id) s = (invalidate_cache sinks order_id s).1
  after (mark e) s = (mark_processed sinks e s).1
  after (expire now e) s = (expire_if_terminal sinks now e s).1
  after (bury message error) s = (send_to_dlq sinks message error s).1
  after (commit_offset n) s = (commit sinks n s).1

  -- After one attempt to project an event, a transaction that is committed or not.
  abbrev pub attempted : ℕ → Event F → Shared → Shared
  attempted now e sh =
      let p = (r.postgres.transact (project r.numeric now e) sh.servers.postgres).1 in
      record {
        servers = record sh.servers { postgres = p };
        unwritten = sh.unwritten;
        had = r.postgres.tables p ∷ sh.had;
      }

  pub data Step : Shared → Shared → Type 0 where
    -- a call looks into the cache
    look :
        (oid : String) (sh : Shared)
        → Step sh (record sh {
          servers = record sh.servers { redis = (r.redis.get (order_key oid) sh.servers.redis).1 };
        })
    -- a call reads the row of the order
    read :
        (oid : String) (result : OrderResult F N) (sh : Shared)
        → (fetch_order r oid (desk_of sh)).0 ≡ ok (some result)
        → Step sh (record sh {
          servers = record sh.servers { postgres = (fetch_order r oid (desk_of sh)).1.postgres };
          unwritten = (oid, result) ∷ sh.unwritten;
        })
    -- a call reads no row, or fails to read
    read_nothing :
        (oid : String) (sh : Shared)
        → Step sh (record sh {
          servers = record sh.servers { postgres = (fetch_order r oid (desk_of sh)).1.postgres };
        })
    -- a call writes the cache, or fails to
    write :
        (oid : String) (result : OrderResult F N) (before after : List (String × OrderResult F N))
        (sh : Shared)
        → sh.unwritten ≡ before ++ (oid, result) ∷ after
        → Step sh (record sh {
          servers = record sh.servers {
            redis = (r.redis.setex (order_key oid) 3600 (r.dumps result) sh.servers.redis).1;
          };
          unwritten = before ++ after;
        })
    -- the consumer attempts a projection
    attempt : (now : ℕ) (e : Event F) (sh : Shared) → Step sh (attempted now e sh)
    -- the consumer makes any other call
    consumer_call : (c : Call) (sh : Shared) → Step sh (record sh { servers = after c sh.servers })

  pub data Reach (start : Shared) : Shared → Type 0 where
    here : Reach start start
    next : {sh sh' : Shared} → Reach start sh → Step sh sh' → Reach start sh'

  -- The order as the read model had it at some time.
  pub record WasShown (had : List (Tables N)) (oid : String) (result : OrderResult F N)
      : Type 1 where
    pub tables : Tables N
    pub plan : Plan
    pub among : Memᴰ tables had
    pub shown : order_result r oid plan tables ≡ some result

  -- Redis holds nothing for the order, or what the read model had at some time.
  abbrev pub HoldsShown : Shared → String → Type 1
  HoldsShown sh oid =
      (r.redis.lookup (order_key oid) sh.servers.redis ≡ none)
      ⊎ ((result : OrderResult F N) × WasShown sh.had oid result
          × (r.redis.lookup (order_key oid) sh.servers.redis ≡ some (r.dumps result)))
