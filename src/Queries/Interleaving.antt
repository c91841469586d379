-- ===== src/Queries/Interleaving.antt =====
-- What Redis holds while calls of `get_order` in api/routers/query_router.py and the consumer of
-- consumers/main.py go on side by side.
pub mod Alone
pub mod Rounds
use mathlib.Core.List.Memᴰ
use event_sourcing_cqrs.Prelude.{
  ℕ, String, ◌≡◌, ◌≢◌, refl, sym, ap, subst, ◌∙◌, ◌⊎◌, inl, inr, Option, none, some, List, [], ◌∷◌,
  ◌++◌, arith, str_eq, eq_iff, Bool-cases, Memᴰ, some-injective,
}
use event_sourcing_cqrs.Exec.{Error, ok}
use event_sourcing_cqrs.Services.Postgres.{Plan}
use event_sourcing_cqrs.Services.Queue.{Queue}
use event_sourcing_cqrs.Services.Offsets.{Offsets}
use event_sourcing_cqrs.Events.{Event, event_type}
use event_sourcing_cqrs.EventStore.{EventCollection}
use event_sourcing_cqrs.ReadModel.{Tables}
use event_sourcing_cqrs.Projection.{project}
use event_sourcing_cqrs.Publisher.{Message}
use event_sourcing_cqrs.Consumer.{
  DeadLetter, Sinks, Stage, order_key, processed_key, has_id, is_terminal, already_processed,
  invalidate_cache, mark_processed, expire_if_terminal, send_to_dlq, commit,
}
use event_sourcing_cqrs.Queries.{OrderResult, Readers, Desk, order_result, fetch_order}
use event_sourcing_cqrs.Queries.Freshness.{setex-either}
use event_sourcing_cqrs.Queries.Invalidation.{
  sinks_of, held, delete-either, mark_processed-held, expire_if_terminal-held,
}
use event_sourcing_cqrs.Queries.Sharing.{
  Shared, Call, look_processed, invalidate, mark, expire, bury, commit_offset, after, attempted,
  sinks, desk_of, Step, look, read, read_nothing, write, attempt, consumer_call, Reach, here, next,
  WasShown, HoldsShown,
}

module _ {F N J : Type 0} (r : Readers F N J) (mongo : EventCollection F)
    (sqs : Queue (DeadLetter F)) (group : Offsets) where
  abbrev AllShown : List (Tables N) → List (String × OrderResult F N) → Type 1
  AllShown had [] = Unit
  AllShown had ((oid, result) ∷ rest) =
      WasShown r mongo sqs group had oid result × AllShown had rest

  record IsSound (sh : Shared r mongo sqs group) : Type 1 where
    pub now_had : Memᴰ (r.postgres.tables sh.servers.postgres) sh.had
    pub read_shown : AllShown sh.had sh.unwritten
    pub cached_shown : (oid : String) → HoldsShown r mongo sqs group sh oid

  WasShown-later :
      (t : Tables N) (had : List (Tables N)) (oid : String) (result : OrderResult F N)
      → WasShown r mongo sqs group had oid result
      → WasShown r mongo sqs group (t ∷ had) oid result
  WasShown-later t had oid result was = record {
    tables = was.tables;
    plan = was.plan;
    among = Memᴰ.tail was.among;
    shown = was.shown;
  }

  AllShown-later :
      (t : Tables N) (had : List (Tables N)) (rest : List (String × OrderResult F N))
      → AllShown had rest
      → AllShown (t ∷ had) rest
  AllShown-later t had [] h = tt
  AllShown-later t had ((oid, result) ∷ rest) (was, more) =
      (WasShown-later t had oid result was, AllShown-later t had rest more)

  AllShown-split :
      (had : List (Tables N)) (oid : String) (result : OrderResult F N)
      (before after : List (String × OrderResult F N))
      → AllShown had (before ++ (oid, result) ∷ after)
      → WasShown r mongo sqs group had oid result × AllShown had (before ++ after)
  AllShown-split had oid result [] after h = h
  AllShown-split had oid result ((o, x) ∷ before) after (was, rest) =
      let (own, others) = AllShown-split had oid result before after rest in (own, (was, others))

  -- A write to the cache of what was shown at some time.
  write-HoldsShown :
      (own oid : String) (result : OrderResult F N) (before after : List (String × OrderResult F N))
      (sh : Shared r mongo sqs group)
      → WasShown r mongo sqs group sh.had own result
      → HoldsShown r mongo sqs group sh oid
      → HoldsShown r mongo sqs group
          (record sh {
            servers = record sh.servers {
              redis = (r.redis.setex (order_key own) 3600 (r.dumps result) sh.servers.redis).1;
            };
            unwritten = before ++ after;
          })
          oid
  write-HoldsShown own oid result before after sh was holds =
      elim (setex-either r own oid (r.dumps result) sh.servers.redis) [
        | inl same ↦ rw same holds
        | inr (is, written) ↦
            inr (result, subst (λ o. WasShown r mongo sqs group sh.had o result) is was, written)
      ]

  after-postgres :
      (c : Call r mongo sqs group) (s : Stage (sinks r mongo sqs group))
      → (after r mongo sqs group c s).postgres ≡ s.postgres
  unfolding invalidate_cache send_to_dlq
  after-postgres (look_processed e) s = elim (Bool-cases (has_id e)) [
    | inl has ↦ rw (has, after) refl
    | inr hasnt ↦ rw (hasnt, after) refl
  ]
  after-postgres (invalidate oid) s = refl
  after-postgres (mark e) s = elim (Bool-cases (has_id e)) [
    | inl has ↦ rw (has, after) refl
    | inr hasnt ↦ rw (hasnt, after) refl
  ]
  after-postgres (expire now e) s = elim (Bool-cases (is_terminal (event_type e))) [
    | inl last ↦ rw (last, after) refl
    | inr goes_on ↦ rw (goes_on, after) refl
  ]
  after-postgres (bury message error) s = refl
  after-postgres (commit_offset n) s = refl

  -- Each call leaves what Redis holds for an order, or deletes it.
  after-either :
      (c : Call r mongo sqs group) (oid : String) (s : Stage (sinks r mongo sqs group))
      → (held (sinks r mongo sqs group) oid (after r mongo sqs group c s)
          ≡ held (sinks r mongo sqs group) oid s)
        ⊎ (held (sinks r mongo sqs group) oid (after r mongo sqs group c s) ≡ none)
  unfolding invalidate_cache send_to_dlq
  after-either (look_processed e) oid s = elim (Bool-cases (has_id e)) [
    | inl has ↦
        rw (has, after) (inl (r.redis.exists_keeps (processed_key e) (order_key oid) s.redis))
    | inr hasnt ↦ rw (hasnt, after) (inl refl)
  ]
  after-either (invalidate own) oid s = delete-either (sinks r mongo sqs group) oid own s.redis
  after-either (mark e) oid s = inl (mark_processed-held (sinks r mongo sqs group) oid e s)
  after-either (expire now e) oid s =
      inl (expire_if_terminal-held (sinks r mongo sqs group) oid now e s)
  after-either (bury message error) oid s = inl refl
  after-either (commit_offset n) oid s = inl refl

  after-HoldsShown :
      (c : Call r mongo sqs group) (oid : String) (sh : Shared r mongo sqs group)
      → HoldsShown r mongo sqs group sh oid
      → HoldsShown r mongo sqs group
          (record sh { servers = after r mongo sqs group c sh.servers })
          oid
  after-HoldsShown c oid sh holds = elim (after-either c oid sh.servers) [
    | inr gone ↦ inl gone
    | inl same ↦ elim holds [
      | inl nothing ↦ inl (same ∙ nothing)
      | inr (result, was, cached) ↦ inr (result, was, same ∙ cached)
    ]
  ]

  attempt-HoldsShown :
      (now : ℕ) (e : Event F) (oid : String) (sh : Shared r mongo sqs group)
      → HoldsShown r mongo sqs group sh oid
      → HoldsShown r mongo sqs group (attempted r mongo sqs group now e sh) oid
  attempt-HoldsShown now e oid sh (inl nothing) = inl nothing
  attempt-HoldsShown now e oid sh (inr (result, was, cached)) =
      inr (result, WasShown-later _ _ oid result was, cached)

  Step-IsSound :
      {sh sh' : Shared r mongo sqs group} → Step r mongo sqs group sh sh' → IsSound sh → IsSound sh'
  Step-IsSound (look oid sh) sound = record {
    now_had = sound.now_had;
    read_shown = sound.read_shown;
    cached_shown = λ other.
        rw (r.redis.get_keeps (order_key oid) (order_key other) sh.servers.redis)
          (sound.cached_shown other);
  }
  Step-IsSound (read oid result sh found) sound =
      let same =
        r.postgres.fetch_keeps (λ plan t. some (order_result r oid plan t)) sh.servers.postgres in
      record {
        now_had = rw same sound.now_had;
        read_shown = (
          record {
            tables = r.postgres.tables sh.servers.postgres;
            plan = r.postgres.plan sh.servers.postgres;
            among = sound.now_had;
            shown = some-injective _ _ (r.postgres.fetch_returns _ sh.servers.postgres _ found);
          },
          sound.read_shown,
        );
        cached_shown = sound.cached_shown;
      }
  Step-IsSound (read_nothing oid sh) sound = record {
    now_had =
        rw (r.postgres.fetch_keeps (λ plan t. some (order_result r oid plan t)) sh.servers.postgres)
          sound.now_had;
    read_shown = sound.read_shown;
    cached_shown = sound.cached_shown;
  }
  Step-IsSound (write oid result before after sh split) sound =
      let (was, rest) =
        AllShown-split sh.had oid result before after (rw split at sound.read_shown) in
      record {
        now_had = sound.now_had;
        read_shown = rest;
        cached_shown = λ other.
            write-HoldsShown oid other result before after sh was (sound.cached_shown other);
      }
  Step-IsSound (attempt now e sh) sound = record {
    now_had = Memᴰ.head refl;
    read_shown = AllShown-later _ sh.had sh.unwritten sound.read_shown;
    cached_shown = λ oid. attempt-HoldsShown now e oid sh (sound.cached_shown oid);
  }
  Step-IsSound (consumer_call c sh) sound = record {
    now_had = rw (after-postgres c sh.servers) sound.now_had;
    read_shown = sound.read_shown;
    cached_shown = λ oid. after-HoldsShown c oid sh (sound.cached_shown oid);
  }

  Reach-IsSound :
      {start sh : Shared r mongo sqs group}
      → Reach r mongo sqs group start sh
      → IsSound start
      → IsSound sh
  Reach-IsSound here sound = sound
  Reach-IsSound (next reached step) sound = Step-IsSound step (Reach-IsSound reached sound)

  -- Start with nothing cached and no call under way, and take any interleaving of the steps of
  -- any number of `get_order` calls (the look into the cache, the read of the row, the write to
  -- the cache) and of the consumer's calls, each a step of its own (an attempt to project an
  -- event, the look at the processed events, the deletion of a cached order, the mark, the
  -- expiry, the dead letter, the commit), where any of them may fail. For every order Redis
  -- then holds nothing, or the text of what the read model had at some time.
  pub Reach-HoldsShown :
      (start sh : Shared r mongo sqs group) (oid : String)
      → start.unwritten ≡ []
      → start.had ≡ r.postgres.tables start.servers.postgres ∷ []
      → ((other : String) → r.redis.lookup (order_key other) start.servers.redis ≡ none)
      → Reach r mongo sqs group start sh
      → HoldsShown r mongo sqs group sh oid
  Reach-HoldsShown start sh oid idle first empty reached =
      (Reach-IsSound reached (record {
        now_had = rw first (Memᴰ.head refl);
        read_shown = rw idle tt;
        cached_shown = λ other. inl (empty other);
      })).cached_shown
        oid
