-- ===== src/RetryHandler/Trips.antt =====
-- The way of one event that the projection refuses each time: from the topic to the dead letter
-- queue (consumers/main.py) and back to the topic (lambda_handlers/retry_handler.py).
use mathlib.Core.List.{head-eq_of_cons-eq, tail-eq_of_cons-eq}
use event_sourcing_cqrs.Prelude.{
  ℕ, zero, suc, ◌≤◌, ◌+◌, ◌≡◌, ◌≢◌, ◌⊎◌, sym, ap, ◌∙◌, inl, inr, subst, some, List, [], ◌∷◌, ◌++◌,
  true, arith, leb, length, length-append, Bool-cases, Memᴰ, mem-snoc, some-injective,
}
use event_sourcing_cqrs.Events.{Event}
use event_sourcing_cqrs.Exec.{Error, ok, Result-cases}
use event_sourcing_cqrs.Services.Queue.{Received}
use event_sourcing_cqrs.Publisher.{Message, KafkaRecord, record_of}
use event_sourcing_cqrs.Consumer.{DeadLetter, count_or_zero, letter_of}
use event_sourcing_cqrs.RetryHandler.{
  Outlets, Post, Counts, max_retries, dead_key, retry_record, bury, republish, handle_message,
  publish_to_kafka_via_proxy,
}
use event_sourcing_cqrs.RetryHandler.Proxy.{publish_to_kafka_via_proxy_writes}
use event_sourcing_cqrs.RetryHandler.Conservation.{delete_then-post}
use event_sourcing_cqrs.RetryHandler.Limit.{log_of, bury-log}

module _ {F : Type 0} (o : Outlets F) where
  -- The handler took the letter of `m` from the queue, and put the message `m'` on the topic.
  pub record Trip (m m' : Message F) : Type 0 where
    pub error : Error
    pub received : Received (DeadLetter F)
    pub letter : received.body ≡ letter_of m error
    pub counts : Counts
    pub post : Post o
    pub sent : KafkaRecord F
    pub carries : sent.value ≡ some m'
    pub written : log_of o (handle_message o received counts post).1 ≡ log_of o post ++ sent ∷ []

  -- The message `m` is what became of the event `e` in `n` trips, from the record that the
  -- publisher sent.
  pub data Trips (e : Event F) : ℕ → Message F → Type 0 where
    published : (m : Message F) → (record_of e).value ≡ some m → Trips e zero m
    again : (n : ℕ) (m m' : Message F) → Trips e n m → Trip m m' → Trips e (suc n) m'

  republished :
      (letter : DeadLetter F) (m' : Message F) (sent : KafkaRecord F)
      → sent ≡ retry_record letter
      → sent.value ≡ some m'
      → (m'.event ≡ letter.message.event) × (count_or_zero m'.retry_count ≡ letter.retry_count + 1)
  unfolding retry_record
  republished letter m' sent same carries =
      let is = some-injective _ _ (sym carries ∙ ap (λ r. r.value) same) in
      (ap (λ m. m.event) is, ap (λ m. count_or_zero m.retry_count) is)

  snoc-last :
      (xs : List (KafkaRecord F)) (a b : KafkaRecord F) → xs ++ a ∷ [] ≡ xs ++ b ∷ [] → a ≡ b
  snoc-last [] a b h = head-eq_of_cons-eq h
  snoc-last (x ∷ xs) a b h = snoc-last xs a b (tail-eq_of_cons-eq h)

  snoc-ne : (xs : List (KafkaRecord F)) (a : KafkaRecord F) → xs ≢ xs ++ a ∷ []
  snoc-ne xs a same = omega (arith, ap (length {A = KafkaRecord F}) same, length-append xs (a ∷ []))

  republish-log :
      (msg : Received (DeadLetter F)) (counts : Counts) (p : Post o)
      → (log_of o (republish o msg counts p).1 ≡ log_of o p)
        ⊎ (log_of o (republish o msg counts p).1 ≡ log_of o p ++ retry_record msg.body ∷ [])
  unfolding republish
  republish-log msg counts p =
      let either = publish_to_kafka_via_proxy_writes o.kafka (retry_record msg.body) p.kafka in
      elim (Result-cases (publish_to_kafka_via_proxy o.kafka (retry_record msg.body) p.kafka).0) [
        | inl (_, sent) ↦ rw sent (elim either [
          | inl same ↦ inl (ap (log_of o) (delete_then-post o msg _ _) ∙ same)
          | inr written ↦ inr (ap (log_of o) (delete_then-post o msg _ _) ∙ written)
        ])
        | inr (e, failed) ↦ rw failed either
      ]

  -- What one trip does to the count.
  trip_lem :
      (m m' : Message F)
      → Trip m m'
      → (m'.event ≡ m.event)
        × (count_or_zero m'.retry_count ≡ suc (count_or_zero m.retry_count))
        × (suc (count_or_zero m.retry_count) ≤ max_retries)
  unfolding handle_message
  trip_lem m m' t =
      let letter = t.received.body in
      let counted : letter.retry_count ≡ count_or_zero m.retry_count =
        ap (λ (l : DeadLetter F). l.retry_count) t.letter in
      let same : letter.message.event ≡ m.event =
        ap (λ (l : DeadLetter F). l.message.event) t.letter in
      elim (Bool-cases (leb max_retries letter.retry_count)) [
        | inl often ↦ absurd (
            snoc-ne _ t.sent
              (sym (bury-log o t.received t.counts t.post) ∙ (rw often at t.written)))
        | inr seldom ↦ elim (republish-log t.received t.counts t.post) [
          | inl kept ↦ absurd (snoc-ne _ t.sent (sym kept ∙ (rw seldom at t.written)))
          | inr sent ↦
              let is = snoc-last _ _ _ (sym (rw seldom at t.written) ∙ sent) in
              let (own, one_more) = republished letter m' t.sent is t.carries in
              (own ∙ same, omega (arith, one_more, counted), ground (arith, seldom, counted))
        ]
      ]

  -- However often an event goes round from the topic to the dead letter queue and back,
  -- starting from the record that the publisher sent: it stays the same event, the last record
  -- counts the trips, and there are at most three.
  pub poison_ends :
      (e : Event F) (n : ℕ) (m : Message F)
      → Trips e n m
      → (m.event ≡ e) × (count_or_zero m.retry_count ≡ n) × (n ≤ max_retries)
  unfolding record_of
  poison_ends e n m (published _ h) =
      let is = some-injective _ _ h in
      (ap (λ x. x.event) (sym is), ap (λ x. count_or_zero x.retry_count) (sym is), omega arith)
  poison_ends e n m' (again n' m _ before t) =
      let (same, counted, _) = poison_ends e n' m before in
      let (own, one_more, below) = trip_lem m m' t in
      (own ∙ same, omega (arith, one_more, counted), omega (arith, below, counted))

  -- A burial that returns has put the letter into the bucket.
  buried-mem :
      (msg : Received (DeadLetter F)) (counts counts' : Counts) (p : Post o)
      → (bury o msg counts p).0 ≡ ok counts'
      → Memᴰ (dead_key msg.body.message.event, msg.body) (o.s3.objects (bury o msg counts p).1.s3)
  unfolding bury
  buried-mem msg counts counts' p h =
      let key = dead_key msg.body.message.event in
      elim (Result-cases (o.s3.put_object key msg.body p.s3).0) [
        | inr (_, failed) ↦ ground (arith, failed, h)
        | inl (_, put) ↦ rw put (
            subst (λ (q : Post o). Memᴰ (key, msg.body) (o.s3.objects q.s3))
              (sym (delete_then-post o msg _ _))
              (subst (λ l. Memᴰ (key, msg.body) l)
                (sym (o.s3.put_object_returns key msg.body p.s3 put))
                (mem-snoc (o.s3.objects p.s3) (key, msg.body))))
      ]

  -- After three trips, when the handler returns for a letter of the event's message, it has put
  -- the letter into the bucket under the event's key and sent nothing to the topic.
  pub poison_buried :
      (e : Event F) (m : Message F) (error : Error) (received : Received (DeadLetter F))
      (counts counts' : Counts) (p : Post o)
      → Trips e max_retries m
      → received.body ≡ letter_of m error
      → (handle_message o received counts p).0 ≡ ok counts'
      → Memᴰ
          (dead_key e, letter_of m error)
          (o.s3.objects (handle_message o received counts p).1.s3)
        × (log_of o (handle_message o received counts p).1 ≡ log_of o p)
  unfolding handle_message
  poison_buried e m error received counts counts' p trips letter h =
      let (own, counted, _) = poison_ends e max_retries m trips in
      let often : leb max_retries received.body.retry_count ≡ true =
        ground (arith, counted, ap (λ (l : DeadLetter F). l.retry_count) letter) in
      rw often (
        subst (λ x. Memᴰ x (o.s3.objects (bury o received counts p).1.s3))
            (ap (λ (l : DeadLetter F). (dead_key l.message.event, l)) letter
              ∙ ap (λ k. (dead_key k, letter_of m error)) own)
            (buried-mem received counts counts' p (rw often at h)),
        bury-log o received counts p,
      )
