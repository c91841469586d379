-- ===== src/Queries/Interleaving/Alone.antt =====
-- A call of `get_order` in api/routers/query_router.py that nothing interrupts, as steps of the
-- interleaving.
use event_sourcing_cqrs.Prelude.{
  String, refl, inl, inr, Option, none, some, [], ◌∷◌, str_eq, Bool-cases,
}
use event_sourcing_cqrs.Exec.{Result-cases}
use event_sourcing_cqrs.Services.Queue.{Queue}
use event_sourcing_cqrs.Services.Offsets.{Offsets}
use event_sourcing_cqrs.EventStore.{EventCollection}
use event_sourcing_cqrs.Consumer.{DeadLetter, order_key}
use event_sourcing_cqrs.Queries.{
  OrderResult, Readers, Desk, fetch_order, loaded, answer_row, read_order, answer_cached, get_order,
}
use event_sourcing_cqrs.Queries.Sharing.{
  Shared, look, read, read_nothing, write, Reach, next, desk_of,
}

module _ {F N J : Type 0} (r : Readers F N J) (mongo : EventCollection F)
    (sqs : Queue (DeadLetter F)) (group : Offsets) where
  abbrev Sh : Type 0
  Sh = Shared r mongo sqs group

  -- With the database and Redis as a call leaves them.
  abbrev pub with_desk : Desk r → Sh → Sh
  with_desk d sh = record sh {
    servers = record sh.servers { postgres = d.postgres; redis = d.redis };
  }

  module _ (oid : String) (start : Sh) where
    write-Reach :
        (result : OrderResult F N) (sh : Sh)
        → Reach r mongo sqs group start (record sh { unwritten = (oid, result) ∷ sh.unwritten })
        → Reach r mongo sqs group start
            (with_desk (answer_row r oid (some result) (desk_of r mongo sqs group sh)).1 sh)
    write-Reach result sh reached =
        let written = next reached (write oid result [] sh.unwritten _ refl) in
        elim (Result-cases
          (r.redis.setex (order_key oid) 3600 (r.dumps result) sh.servers.redis).0) [
            | inl (_, done) ↦ rw done written
            | inr (_, failed) ↦ rw failed written
          ]

    read_order-Reach :
        (sh : Sh)
        → Reach r mongo sqs group start sh
        → Reach r mongo sqs group start
            (with_desk (read_order r oid (desk_of r mongo sqs group sh)).1 sh)
    unfolding read_order
    read_order-Reach sh reached =
        elim (Result-cases (fetch_order r oid (desk_of r mongo sqs group sh)).0) [
          | inr (_, failed) ↦ rw failed (next reached (read_nothing oid sh))
          | inl (none, done) ↦ rw done (next reached (read_nothing oid sh))
          | inl (some result, done) ↦
              rw done (write-Reach result _ (next reached (read oid result sh done)))
        ]

    loaded-Reach :
        (o : Option J) (sh : Sh)
        → Reach r mongo sqs group start sh
        → Reach r mongo sqs group start (with_desk (loaded r o (desk_of r mongo sqs group sh)).1 sh)
    loaded-Reach none sh reached = reached
    loaded-Reach (some doc) sh reached = reached

    answer_cached-Reach :
        (o : Option String) (sh : Sh)
        → Reach r mongo sqs group start sh
        → Reach r mongo sqs group start
            (with_desk (answer_cached r oid o (desk_of r mongo sqs group sh)).1 sh)
    answer_cached-Reach none sh reached = read_order-Reach sh reached
    answer_cached-Reach (some text) sh reached = elim (Bool-cases (str_eq text "")) [
      | inl empty ↦ rw empty (read_order-Reach sh reached)
      | inr full ↦ rw full (loaded-Reach (r.loads text) sh reached)
    ]

  -- A `get_order` that nothing interrupts goes by the steps of the interleaving.
  pub get_order-Reach :
      (oid : String) (start sh : Sh)
      → Reach r mongo sqs group start sh
      → Reach r mongo sqs group start
          (with_desk (get_order r oid (desk_of r mongo sqs group sh)).1 sh)
  unfolding get_order
  get_order-Reach oid start sh reached =
      let looked = next reached (look oid sh) in
      elim (Result-cases (r.redis.get (order_key oid) sh.servers.redis).0) [
        | inl (o, done) ↦ rw done (answer_cached-Reach oid start o _ looked)
        | inr (_, failed) ↦ rw failed looked
      ]
