-- ===== src/RetryHandler/Limit.antt =====
-- How often the retry handler sends an event back to the topic.
use event_sourcing_cqrs.Prelude.{
  ℕ, ◌≤◌, ◌+◌, ◌≡◌, refl, sym, ap, inl, inr, subst, none, some, Option, List, [], ◌∷◌, ◌++◌, false,
  arith, leb, Bool-cases,
}
use event_sourcing_cqrs.Exec.{Result-cases}
use event_sourcing_cqrs.Services.Queue.{Received}
use event_sourcing_cqrs.Publisher.{Message, KafkaRecord}
use event_sourcing_cqrs.Consumer.{DeadLetter, count_or_zero}
use event_sourcing_cqrs.RetryHandler.{
  Outlets, Post, Counts, max_retries, dead_key, retry_record, bury, republish, handle_message,
  handle_messages, handler, publish_to_kafka_via_proxy,
}
use event_sourcing_cqrs.RetryHandler.Proxy.{publish_to_kafka_via_proxy_writes}
use event_sourcing_cqrs.RetryHandler.Conservation.{delete_then-post}

module _ {F : Type 0} where
  -- The retries that the value of a record counts.
  abbrev pub retries_of : Option (Message F) → ℕ
  retries_of none = 0
  retries_of (some m) = count_or_zero m.retry_count

  -- No record counts more than three retries.
  abbrev pub AllWithin : List (KafkaRecord F) → Type 0
  AllWithin [] = Unit
  AllWithin (r ∷ rs) = (retries_of r.value ≤ 3) × AllWithin rs

  AllWithin-snoc :
      (rs : List (KafkaRecord F)) (r : KafkaRecord F)
      → AllWithin rs
      → retries_of r.value ≤ max_retries
      → AllWithin (rs ++ r ∷ [])
  AllWithin-snoc [] r h within = (within, tt)
  AllWithin-snoc (x ∷ xs) r (first, rest) within = (first, AllWithin-snoc xs r rest within)

module _ {F : Type 0} (o : Outlets F) where
  abbrev pub log_of : Post o → List (KafkaRecord F)
  log_of p = o.kafka.log p.kafka

  module _ (msg : Received (DeadLetter F)) (counts : Counts) (p : Post o) where
    send-AllWithin :
        leb max_retries msg.body.retry_count ≡ false
        → AllWithin (log_of p)
        → AllWithin
            (o.kafka.log (publish_to_kafka_via_proxy o.kafka (retry_record msg.body) p.kafka).1)
    unfolding retry_record
    send-AllWithin seldom h =
        let within : msg.body.retry_count + 1 ≤ max_retries = ground (arith, seldom) in
        elim (publish_to_kafka_via_proxy_writes o.kafka (retry_record msg.body) p.kafka) [
          | inl same ↦ rw same h
          | inr written ↦ rw written (AllWithin-snoc _ _ h within)
        ]

    republish-AllWithin :
        leb max_retries msg.body.retry_count ≡ false
        → AllWithin (log_of p)
        → AllWithin (log_of (republish o msg counts p).1)
    unfolding republish
    republish-AllWithin seldom h =
        elim (Result-cases (publish_to_kafka_via_proxy o.kafka (retry_record msg.body) p.kafka).0) [
          | inl (_, sent) ↦ rw sent (
              subst AllWithin (sym (ap log_of (delete_then-post o msg _ _)))
                (send-AllWithin seldom h))
          | inr (_, failed) ↦ rw failed (send-AllWithin seldom h)
        ]

    pub bury-log : log_of (bury o msg counts p).1 ≡ log_of p
    unfolding bury
    bury-log =
        elim (Result-cases (o.s3.put_object (dead_key msg.body.message.event) msg.body p.s3).0) [
          | inl (_, put) ↦ rw put (ap log_of (delete_then-post o msg _ _))
          | inr (_, failed) ↦ rw failed refl
        ]

    handle_message-AllWithin :
        AllWithin (log_of p) → AllWithin (log_of (handle_message o msg counts p).1)
    unfolding handle_message
    handle_message-AllWithin h = elim (Bool-cases (leb max_retries msg.body.retry_count)) [
      | inl often ↦ rw often (rw bury-log h)
      | inr seldom ↦ rw seldom (republish-AllWithin seldom h)
    ]

  handle_messages-AllWithin :
      (msgs : List (Received (DeadLetter F))) (counts : Counts) (p : Post o)
      → AllWithin (log_of p)
      → AllWithin (log_of (handle_messages o msgs counts p).1)
  unfolding handle_messages
  handle_messages-AllWithin [] counts p h = h
  handle_messages-AllWithin (msg ∷ rest) counts p h =
      let next = handle_message-AllWithin msg counts p h in
      elim (Result-cases (handle_message o msg counts p).0) [
        | inl (counts', done) ↦ rw done (handle_messages-AllWithin rest counts' _ next)
        | inr (_, failed) ↦ rw failed next
      ]

  -- If no record of the topic counts more than three retries, none does after `handler`,
  -- whatever the queue holds and however the handler ends.
  pub handler-AllWithin : (p : Post o) → AllWithin (log_of p) → AllWithin (log_of (handler o p).1)
  unfolding handler
  handler-AllWithin p h = elim (Result-cases (o.sqs.receive_message p.sqs).0) [
    | inl (msgs, got) ↦ rw got (handle_messages-AllWithin msgs _ _ h)
    | inr (_, failed) ↦ rw failed h
  ]
