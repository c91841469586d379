-- ===== src/RetryHandler/Recovery.antt =====
-- A letter on the dead letter queue that lambda_handlers/retry_handler.py publishes again, and the
-- round of consumers/main.py over the new record.
use event_sourcing_cqrs.Prelude.{
  ℕ, suc, String, ◌+◌, ◌≤◌, ◌≡◌, refl, ap, ◌∙◌, [], ◌∷◌, ◌++◌, none, some, true, false, arith, leb,
  ◌||◌, str_eq,
}
use event_sourcing_cqrs.Events.{Event}
use event_sourcing_cqrs.Exec.{Error, ok}
use event_sourcing_cqrs.Services.Queue.{Received}
use event_sourcing_cqrs.Services.RestProxy.{Answer, is_accepted}
use event_sourcing_cqrs.RetryHandler.Proxy.{publish_to_kafka_via_proxy_accepted}
use event_sourcing_cqrs.Publisher.{Message, KafkaRecord}
use event_sourcing_cqrs.Consumer.{
  Sinks, Stage, DeadLetter, has_id, processed_key, count_or_zero, letter_of, try_project,
  project_message, handle_value, handle_record,
}
use event_sourcing_cqrs.Consumer.ExactlyOnce.{
  looked, looked-known, Projected, project_message-Projected,
}
use event_sourcing_cqrs.RetryHandler.{
  Outlets, Post, Counts, max_retries, retry_record, republish, handle_message,
}
use event_sourcing_cqrs.RetryHandler.Conservation.{delete_then-post}
use event_sourcing_cqrs.RetryHandler.Limit.{log_of}

-- The letter that the consumer wrote for a message, as it is received.
abbrev pub returned : {F : Type 0} → Message F → Error → String → Received (DeadLetter F)
returned m error receipt = record { body = letter_of m error; receipt_handle = receipt }

module _ {F N : Type 0} (k : Sinks F N) where
  -- A round for an event that is not known, whose `try` block returns.
  new_round-Projected :
      (now n : ℕ) (m : Message F) (s : Stage k)
      → has_id m.event ≡ true
      → (k.redis.exists (processed_key m.event) s.redis).0 ≡ ok false
      → (try_project k now n m.event (looked k m.event s)).0 ≡ ok tt
      → ((handle_value k now n (some m) s).0 ≡ ok tt)
        × Projected k now m.event s (handle_value k now n (some m) s).1
  unfolding handle_value project_message
  new_round-Projected now n m s has fresh done =
      let (projected, marked) = project_message-Projected k now n m (looked k m.event s) has done in
      let known = λ (d : Event F).
        marked d ∙ ap (λ b. str_eq d.event_id m.event.event_id || b) (looked-known k m.event d s) in
      rw (has, fresh) (rw done refl, (projected, known))

  module _ (o : Outlets F) where
    handle_message-sends :
        (received : Received (DeadLetter F)) (counts : Counts) (p : Post o)
        → suc received.body.retry_count ≤ max_retries
        → (answer : Answer) → (o.kafka.post (retry_record received.body) p.kafka).0 ≡ ok answer
        → is_accepted answer.status ≡ true
        → answer.error_code ≡ none
        → log_of o (handle_message o received counts p).1
          ≡ log_of o p ++ retry_record received.body ∷ []
    unfolding handle_message republish
    handle_message-sends received counts p below answer posted accepted clean =
        let seldom : leb max_retries received.body.retry_count ≡ false = ground (arith, below) in
        let (sent, written) =
          publish_to_kafka_via_proxy_accepted o.kafka (retry_record received.body) p.kafka answer
            posted accepted clean in
        rw (seldom, sent) (ap (log_of o) (delete_then-post o received _ _) ∙ written)

    -- A letter that the consumer wrote for a message retried fewer than three times is
    -- received, and the REST proxy accepts the record that the retry handler makes of it and
    -- reports no error code. Then the handler has written that one record, and a later round of
    -- the consumer over it returns if the event has an id, Redis answers that it is not
    -- processed and the round's `try` block returns. The tables are then those of projecting
    -- the message's event, and the event is held as processed beside those that were.
    pub recovers :
        (m : Message F) (error : Error) (receipt : String) (counts : Counts) (p : Post o)
        (now n : ℕ) (s : Stage k)
        → suc (count_or_zero m.retry_count) ≤ max_retries
        → (answer : Answer)
        → (o.kafka.post (retry_record (letter_of m error)) p.kafka).0 ≡ ok answer
        → is_accepted answer.status ≡ true
        → answer.error_code ≡ none
        → has_id m.event ≡ true
        → (k.redis.exists (processed_key m.event) s.redis).0 ≡ ok false
        → (try_project k now n m.event (looked k m.event s)).0 ≡ ok tt
        → (sent : KafkaRecord F) × (log_of o
              (handle_message o (returned m error receipt) counts p).1
            ≡ log_of o p ++ sent ∷ [])
          × ((handle_record k now n sent s).0 ≡ ok tt)
          × Projected k now m.event s (handle_record k now n sent s).1
    unfolding retry_record
    recovers m error receipt counts p now n s below answer posted accepted clean has fresh done =
        let again = record m { retry_count = some (count_or_zero m.retry_count + 1) } in
        let (returns, projected) = new_round-Projected now n again s has fresh done in
        (
          retry_record (letter_of m error),
          handle_message-sends (returned m error receipt) counts p below answer posted accepted
              clean,
          returns,
          projected,
        )
