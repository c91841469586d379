-- ===== src/RetryHandler/Conservation.antt =====
-- Where the retry handler leaves a dead letter.
use event_sourcing_cqrs.Prelude.{
  String, ◌≡◌, refl, sym, ◌⊎◌, inl, inr, subst, List, [], ◌∷◌, false, not, Memᴰ, mem-append_left,
  mem-snoc, mem-select, str_eq, eq_iff, leb, Bool-cases,
}
use event_sourcing_cqrs.Exec.{ok, Result-cases}
use event_sourcing_cqrs.Services.Queue.{Received}
use event_sourcing_cqrs.Consumer.{DeadLetter}
use event_sourcing_cqrs.RetryHandler.{
  Outlets, Post, Counts, max_retries, dead_key, retry_record, delete_then, bury, republish,
  handle_message, handle_messages, handler, publish_to_kafka_via_proxy,
}
use event_sourcing_cqrs.RetryHandler.Proxy.{
  ReportsNone, publish_to_kafka_via_proxy_writes, publish_to_kafka_via_proxy_returns,
}

module _ {F : Type 0} (o : Outlets F) where
  -- A letter is in the queue, or back on the topic, or in the bucket of dead letters.
  pub data Kept (m : Received (DeadLetter F)) (p : Post o) : Type 0 where
    queued : Memᴰ m (o.sqs.messages p.sqs) → Kept m p
    republished : Memᴰ (retry_record m.body) (o.kafka.log p.kafka) → Kept m p
    buried : Memᴰ (dead_key m.body.message.event, m.body) (o.s3.objects p.s3) → Kept m p

  -- Kept outside the queue.
  abbrev Saved : Received (DeadLetter F) → Post o → Type 0
  Saved m p =
      Memᴰ (retry_record m.body) (o.kafka.log p.kafka)
      ⊎ Memᴰ (dead_key m.body.message.event, m.body) (o.s3.objects p.s3)

  delete_message-mem :
      (m : Received (DeadLetter F)) (handle : String) (s : o.sqs.State)
      → Memᴰ m (o.sqs.messages s)
      → str_eq m.receipt_handle handle ≡ false
      → Memᴰ m (o.sqs.messages (o.sqs.delete_message handle s).1)
  delete_message-mem m handle s found other =
      let left =
        mem-select (λ x. not (str_eq x.receipt_handle handle)) m (o.sqs.messages s) found
          (rw other) in
      elim (Result-cases (o.sqs.delete_message handle s).0) [
        | inl (_, done) ↦ rw (o.sqs.delete_message_returns handle s done) left
        | inr (e, failed) ↦ elim (o.sqs.delete_message_raises handle s e failed) [
          | inl kept ↦ rw kept found
          | inr gone ↦ rw gone left
        ]
      ]

  pub delete_then-post :
      (msg : Received (DeadLetter F)) (counts : Counts) (p : Post o)
      → (delete_then o msg counts p).1
        ≡ record p { sqs = (o.sqs.delete_message msg.receipt_handle p.sqs).1 }
  delete_then-post msg counts p =
      elim (Result-cases (o.sqs.delete_message msg.receipt_handle p.sqs).0) [
        | inl (_, done) ↦ rw done
        | inr (_, failed) ↦ rw failed
      ]

  -- A topic and a bucket only grow.
  send-mem :
      (letter : DeadLetter F) (msg : DeadLetter F) (s : o.kafka.State)
      → Memᴰ (retry_record letter) (o.kafka.log s)
      → Memᴰ
          (retry_record letter)
          (o.kafka.log (publish_to_kafka_via_proxy o.kafka (retry_record msg) s).1)
  send-mem letter msg s found =
      elim (publish_to_kafka_via_proxy_writes o.kafka (retry_record msg) s) [
        | inl same ↦ rw same found
        | inr written ↦ rw written (mem-append_left _ _ _ found)
      ]

  put-mem :
      (x : String × DeadLetter F) (key : String) (body : DeadLetter F) (s : o.s3.State)
      → Memᴰ x (o.s3.objects s)
      → Memᴰ x (o.s3.objects (o.s3.put_object key body s).1)
  put-mem x key body s found = elim (Result-cases (o.s3.put_object key body s).0) [
    | inl (_, put) ↦ rw (o.s3.put_object_returns key body s put) (mem-append_left _ _ _ found)
    | inr (e, failed) ↦ elim (o.s3.put_object_raises key body s e failed) [
      | inl same ↦ rw same found
      | inr written ↦ rw written (mem-append_left _ _ _ found)
    ]
  ]

  module _ (m msg : Received (DeadLetter F))
      (same : msg.receipt_handle ≡ m.receipt_handle → msg ≡ m) (counts : Counts) (p : Post o) where
    -- Deleting another message, or one that is kept elsewhere.
    delete-Kept : Kept m p → (msg ≡ m → Saved m p) → Kept m (delete_then o msg counts p).1
    delete-Kept (republished r) own = rw (delete_then-post msg counts p) (republished r)
    delete-Kept (buried b) own = rw (delete_then-post msg counts p) (buried b)
    delete-Kept (queued q) own =
        rw (delete_then-post msg counts p)
          (elim (Bool-cases (str_eq m.receipt_handle msg.receipt_handle)) [
            | inr other ↦ queued (delete_message-mem m msg.receipt_handle p.sqs q other)
            | inl equal ↦ elim (own (same (sym ((eq_iff _ _).0 equal)))) [
              | inl r ↦ republished r
              | inr b ↦ buried b
            ]
          ])

  -- What one round of the loop does to a letter `m`.
  module _ (m msg : Received (DeadLetter F))
      (same : msg.receipt_handle ≡ m.receipt_handle → msg ≡ m) (counts : Counts) (p : Post o) where
    put-Kept :
        Kept m p
        → Kept m
            (record p { s3 = (o.s3.put_object (dead_key msg.body.message.event) msg.body p.s3).1 })
    put-Kept (queued q) = queued q
    put-Kept (republished r) = republished r
    put-Kept (buried b) = buried (put-mem _ _ msg.body p.s3 b)

    send-Kept :
        Kept m p
        → Kept m (record p {
          kafka = (publish_to_kafka_via_proxy o.kafka (retry_record msg.body) p.kafka).1;
        })
    send-Kept (queued q) = queued q
    send-Kept (republished r) = republished (send-mem m.body msg.body p.kafka r)
    send-Kept (buried b) = buried b

    bury-Kept : Kept m p → Kept m (bury o msg counts p).1
    unfolding bury
    bury-Kept kept =
        let own =
          λ (put : (o.s3.put_object (dead_key msg.body.message.event) msg.body p.s3).0 ≡ ok tt)
              (eq : msg ≡ m).
            subst
              (λ x.
                Memᴰ (dead_key x.body.message.event, x.body)
                  (o.s3.objects
                    (o.s3.put_object (dead_key msg.body.message.event) msg.body p.s3).1))
              eq
              (rw (o.s3.put_object_returns (dead_key msg.body.message.event) msg.body p.s3 put)
                (mem-snoc _ _)) in
        elim (Result-cases (o.s3.put_object (dead_key msg.body.message.event) msg.body p.s3).0) [
          | inl (_, put) ↦
              rw put (delete-Kept m msg same _ _ (put-Kept kept) (λ eq. inr (own put eq)))
          | inr (e, failed) ↦ rw failed (put-Kept kept)
        ]

    -- The proxy reports no error code for the record of `m`.
    module _ (clean : ReportsNone o.kafka (retry_record m.body)) where
      republish-Kept : Kept m p → Kept m (republish o msg counts p).1
      unfolding republish
      republish-Kept kept =
          let send = publish_to_kafka_via_proxy o.kafka in
          let own = λ (sent : (send (retry_record msg.body) p.kafka).0 ≡ ok tt) (eq : msg ≡ m).
            let sent_own = subst (λ x. (send (retry_record x.body) p.kafka).0 ≡ ok tt) eq sent in
            subst
              (λ x. Memᴰ (retry_record m.body) (o.kafka.log (send (retry_record x.body) p.kafka).1))
              (sym eq)
              (rw
                (publish_to_kafka_via_proxy_returns o.kafka (retry_record m.body) p.kafka clean
                  sent_own)
                (mem-snoc _ _)) in
          elim (Result-cases (send (retry_record msg.body) p.kafka).0) [
            | inl (_, sent) ↦
                rw sent (delete-Kept m msg same _ _ (send-Kept kept) (λ eq. inl (own sent eq)))
            | inr (e, failed) ↦ rw failed (send-Kept kept)
          ]

      handle_message-Kept : Kept m p → Kept m (handle_message o msg counts p).1
      unfolding handle_message
      handle_message-Kept kept = elim (Bool-cases (leb max_retries msg.body.retry_count)) [
        | inl often ↦ rw often (bury-Kept kept)
        | inr seldom ↦ rw seldom (republish-Kept kept)
      ]

  handle_messages-Kept :
      (m : Received (DeadLetter F)) (msgs : List (Received (DeadLetter F)))
      → ((msg : Received (DeadLetter F))
          → Memᴰ msg msgs
          → msg.receipt_handle ≡ m.receipt_handle
          → msg ≡ m)
      → ReportsNone o.kafka (retry_record m.body)
      → (counts : Counts) (p : Post o) → Kept m p
      → Kept m (handle_messages o msgs counts p).1
  unfolding handle_messages
  handle_messages-Kept m [] same clean counts p kept = kept
  handle_messages-Kept m (msg ∷ rest) same clean counts p kept =
      let next = handle_message-Kept m msg (same msg (Memᴰ.head refl)) counts p clean kept in
      elim (Result-cases (handle_message o msg counts p).0) [
        | inl (counts', done) ↦
            rw done (
              handle_messages-Kept m rest (λ x found. same x (Memᴰ.tail found)) clean counts' _
                next)
        | inr (_, failed) ↦ rw failed next
      ]

  -- A message is in the queue when `handler` starts, and the REST proxy never accepts a request
  -- with that message's record while it reports an error code for it. Then the message is
  -- afterwards in the queue still, or its event is on the topic with the new `retry_count`, or
  -- it was put into the bucket of dead letters. This holds whether the handler returns or
  -- raises.
  pub handler_keeps :
      (p : Post o) (m : Received (DeadLetter F))
      → Memᴰ m (o.sqs.messages p.sqs)
      → ReportsNone o.kafka (retry_record m.body)
      → Kept m (handler o p).1
  unfolding handler
  handler_keeps p m found clean =
      let after : Kept m (record p { sqs = (o.sqs.receive_message p.sqs).1 }) =
        queued (rw (o.sqs.receive_message_keeps p.sqs) found) in
      elim (Result-cases (o.sqs.receive_message p.sqs).0) [
        | inl (msgs, got) ↦ rw got (
            handle_messages-Kept m msgs
              (λ x in_msgs same.
                o.sqs.handles_unique p.sqs x m
                  (o.sqs.receive_message_returns p.sqs msgs x got in_msgs) found same)
              clean _ _ after)
        | inr (_, failed) ↦ rw failed after
      ]
