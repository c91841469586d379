-- ===== src/Commands/Idempotency.antt =====
-- What `create_order` does with an idempotency key.
use event_sourcing_cqrs.Prelude.{
  String, ◌≡◌, refl, sym, ap, ◌∙◌, inl, inr, false, some, none, Option, arith, [], ◌∷◌, ◌++◌,
  str_eq,
}
use event_sourcing_cqrs.Events.{Stamp, Event, order_created_event}
use event_sourcing_cqrs.Exec.{ok, Result-cases, ok-injective}
use event_sourcing_cqrs.Schemas.{CreateOrderRequest, CommandResponse}
use event_sourcing_cqrs.EventStore.{append, get_latest_version, of_aggregate, version_key}
use event_sourcing_cqrs.EventStore.History.{new_document}
use event_sourcing_cqrs.EventStore.Append.{append_returns}
use event_sourcing_cqrs.Publisher.{publish}
use event_sourcing_cqrs.Commands.{
  Services, World, create_order, create_new, respond_cached, record_event, idem_cache_key,
  cached_order,
}
use event_sourcing_cqrs.Commands.Legal.{docs_of}

module _ {F : Type 0} (sv : Services F) (req : CreateOrderRequest) where
  -- The order id that the key of a request is mapped to.
  abbrev pub mapped : World sv → Option String
  mapped w = sv.redis.lookup (idem_cache_key sv req) w.bus.redis

module _ {F : Type 0} (sv : Services F) (stamp : Stamp) (order_id : String)
    (req : CreateOrderRequest) where
  abbrev pub opening : Event F
  opening = order_created_event sv.float stamp order_id req.customer_id req.customer_email

  record_event_stores :
      (event : Event F) (message : String) (w : World sv) (response : CommandResponse)
      → (record_event sv event message w).0 ≡ ok response
      → (docs_of sv (record_event sv event message w).1 ≡ docs_of sv w ++ new_document event ∷ [])
        × (response.aggregate_id ≡ event.aggregate_id)
        × (response.aggregate_version ≡ event.aggregate_version)
  unfolding record_event
  record_event_stores event message w response h =
      elim (Result-cases (append sv.mongo event w.mongo).0) [
        | inr (_, failed) ↦ ground (arith, failed, h)
        | inl (_, stored) ↦ elim (Result-cases (publish sv.redis sv.kafka event w.bus).0) [
          | inr (_, failed) ↦ ground (arith, stored, failed, h)
          | inl (_, sent) ↦
              let same = ok-injective (rw (stored, sent) at h) in
              rw (stored, sent)
                (
                  (append_returns sv.mongo event w.mongo stored).1,
                  sym (ap (λ r. r.aggregate_id) same),
                  sym (ap (λ r. r.aggregate_version) same),
                )
        ]
      ]

  create_new_returns :
      (w : World sv) (response : CommandResponse)
      → (create_new sv stamp order_id req w).0 ≡ ok response
      → (docs_of sv (create_new sv stamp order_id req w).1
          ≡ docs_of sv w ++ new_document opening ∷ [])
        × (mapped sv req (create_new sv stamp order_id req w).1 ≡ some order_id)
        × (response.aggregate_id ≡ order_id)
        × (response.aggregate_version ≡ 1)
  unfolding create_new
  create_new_returns w response h =
      let made = record_event sv opening "Order created" in
      elim (Result-cases (made w).0) [
        | inr (_, failed) ↦ ground (arith, failed, h)
        | inl (answer, recorded) ↦
            let redis = (made w).1.bus.redis in
            elim (Result-cases (sv.redis.setex (idem_cache_key sv req) 86400 order_id redis).0) [
              | inr (_, failed) ↦ ground (arith, recorded, failed, h)
              | inl (_, kept) ↦
                  let same = ok-injective (rw (recorded, kept) at h) in
                  let (stored, named, first) =
                    record_event_stores opening "Order created" w answer recorded in
                  rw (recorded, kept, ← same)
                    (
                      stored,
                      sv.redis.setex_returns (idem_cache_key sv req) 86400 order_id redis kept,
                      named,
                      first,
                    )
            ]
      ]

  -- A `create_order` that returns, for a key that is mapped to no order, has stored the
  -- creation of the new order and nothing else, has mapped the key to that order, and answers
  -- with its id and version 1.
  pub create_order_returns :
      (w : World sv) (response : CommandResponse)
      → cached_order sv (mapped sv req w) ≡ none
      → (create_order sv stamp order_id req w).0 ≡ ok response
      → (docs_of sv (create_order sv stamp order_id req w).1
          ≡ docs_of sv w ++ new_document opening ∷ [])
        × (mapped sv req (create_order sv stamp order_id req w).1 ≡ some order_id)
        × (response.aggregate_id ≡ order_id)
        × (response.aggregate_version ≡ 1)
  unfolding create_order
  create_order_returns w response fresh h =
      elim (Result-cases (sv.redis.get (idem_cache_key sv req) w.bus.redis).0) [
        | inr (_, failed) ↦ ground (arith, failed, h)
        | inl (cached, got) ↦
            let none_yet =
              ap (cached_order sv) (sv.redis.get_returns _ w.bus.redis cached got) ∙ fresh in
            rw (got, none_yet) (create_new_returns _ response (rw (got, none_yet) at h))
      ]

  respond_cached_returns :
      (known : String) (w : World sv)
      → (docs_of sv (respond_cached sv known w).1 ≡ docs_of sv w)
        × ((respond_cached sv known w).1.bus ≡ w.bus)
        × ((response : CommandResponse)
            → (respond_cached sv known w).0 ≡ ok response
            → response.aggregate_id ≡ known)
  unfolding respond_cached get_latest_version
  respond_cached_returns known w =
      let stored = sv.mongo.find_last_keeps (of_aggregate known) version_key w.mongo in
      elim (Result-cases (sv.mongo.find_last (of_aggregate known) version_key w.mongo).0) [
        | inr (_, failed) ↦ rw failed (stored, refl, λ response h. ground (arith, h))
        | inl (_, found) ↦
            rw found (stored, refl, λ response h. sym (ap (λ r. r.aggregate_id) (ok-injective h)))
      ]

  -- While the key is mapped to an order, `create_order` stores nothing and publishes nothing,
  -- however it ends, and if it returns it answers with that order's id.
  pub create_order_again :
      (w : World sv) (known : String)
      → cached_order sv (mapped sv req w) ≡ some known
      → (docs_of sv (create_order sv stamp order_id req w).1 ≡ docs_of sv w)
        × ((create_order sv stamp order_id req w).1.bus.kafka ≡ w.bus.kafka)
        × ((response : CommandResponse)
            → (create_order sv stamp order_id req w).0 ≡ ok response
            → response.aggregate_id ≡ known)
  unfolding create_order
  create_order_again w known held =
      elim (Result-cases (sv.redis.get (idem_cache_key sv req) w.bus.redis).0) [
        | inr (_, failed) ↦ rw failed (refl, refl, λ response h. ground (arith, h))
        | inl (cached, got) ↦
            let same =
              ap (cached_order sv) (sv.redis.get_returns _ w.bus.redis cached got) ∙ held in
            let (stored, sent, answers) = respond_cached_returns known _ in
            rw (got, same) (stored, ap (λ b. b.kafka) sent, answers)
      ]

module _ {F : Type 0} (sv : Services F) (req : CreateOrderRequest) where
  -- A `create_order` returned, for a key that was mapped to no order and with an order id that
  -- is not empty. A second call with the same key then stores nothing and publishes nothing,
  -- however it ends, and if it returns it answers with the order id of the first.
  pub create_order_twice :
      (stamp again : Stamp) (order_id other_id : String) (w : World sv) (response : CommandResponse)
      → cached_order sv (mapped sv req w) ≡ none
      → str_eq order_id "" ≡ false
      → (create_order sv stamp order_id req w).0 ≡ ok response
      → let w' = (create_order sv stamp order_id req w).1 in
        (docs_of sv (create_order sv again other_id req w').1 ≡ docs_of sv w')
        × ((create_order sv again other_id req w').1.bus.kafka ≡ w'.bus.kafka)
        × ((answer : CommandResponse)
            → (create_order sv again other_id req w').0 ≡ ok answer
            → answer.aggregate_id ≡ response.aggregate_id)
  create_order_twice stamp again order_id other_id w response fresh named h =
      let (_, held, own, _) = create_order_returns sv stamp order_id req w response fresh h in
      let (stored, sent, answers) =
        create_order_again sv again other_id req _ order_id
          (ap (cached_order sv) held ∙ rw named refl) in
      (stored, sent, λ answer returned. answers answer returned ∙ sym own)
