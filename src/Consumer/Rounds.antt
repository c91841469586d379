-- ===== src/Consumer/Rounds.antt =====
-- What one round of the loop of consumers/main.py does with a record.
use event_sourcing_cqrs.Prelude.{
  ℕ, String, ◌≡◌, refl, sym, ap, ◌∙◌, inl, inr, some, Bool, true, false, arith, Bool-cases, Memᴰ,
  mem-snoc,
}
use event_sourcing_cqrs.Exec.{Error, ok, err, Result-cases, ◌>>◌}
use event_sourcing_cqrs.Exec.Chain.{bind-ensures}
use event_sourcing_cqrs.Services.Redis.{is_some}
use event_sourcing_cqrs.Projection.{project}
use event_sourcing_cqrs.Publisher.{Message}
use event_sourcing_cqrs.Consumer.{
  Sinks, Stage, letter_of, has_id, processed_key, send_to_dlq, commit, try_project, project_message,
  unless_processed, already_processed, handle_value,
}
use event_sourcing_cqrs.Consumer.Attempts.{
  AtMostOnce, project_to_postgres-AtMostOnce, project_to_postgres_returns,
}
use event_sourcing_cqrs.Consumer.Try.{
  try_project-sqs, try_project-postgres, try_project_returns, try_project-commits,
}

module _ {F N : Type 0} (k : Sinks F N) where
  -- How a record was dealt with, between the states `s` and `s'`.
  pub data Handled (now : ℕ) (message : Message F) (s s' : Stage k) : Type 0 where
    -- the event's id is held as processed, and the tables are left alone
    skipped :
        is_some (k.redis.lookup (processed_key message.event) s.redis) ≡ true
        → k.postgres.tables s'.postgres ≡ k.postgres.tables s.postgres
        → Handled now message s s'
    -- the tables are those of one projection of the event
    projected :
        project k.numeric now message.event (k.postgres.tables s.postgres)
          ≡ some (k.postgres.tables s'.postgres)
        → Handled now message s s'
    -- the message is on the dead letter queue
    dead :
        (error : Error) (handle : String)
        → AtMostOnce k now message.event (k.postgres.tables s.postgres) s'.postgres
        → Memᴰ
            (record { body = letter_of message error; receipt_handle = handle })
            (k.sqs.messages s'.sqs)
        → Handled now message s s'
    -- the dead letter queue refused it
    refused :
        (error refusal : Error)
        → AtMostOnce k now message.event (k.postgres.tables s.postgres) s'.postgres
        → (k.sqs.send_message (letter_of message error) s.sqs).0 ≡ err refusal
        → Handled now message s s'

  -- The dead letter queue after `send_to_dlq` and the commit.
  sent_or_refused :
      (now n : ℕ) (message : Message F) (error : Error) (s t : Stage k)
      → t.sqs ≡ s.sqs
      → AtMostOnce k now message.event (k.postgres.tables s.postgres) t.postgres
      → Handled now message s ((send_to_dlq k message error >> commit k n) t).1
  unfolding send_to_dlq
  sent_or_refused now n message error s t same inv =
      elim (Result-cases (k.sqs.send_message (letter_of message error) t.sqs).0) [
        | inl (_, sent) ↦
            let (handle, after) = k.sqs.send_message_returns (letter_of message error) t.sqs sent in
            dead error handle inv (rw after (mem-snoc _ _))
        | inr (refusal, failed) ↦ refused error refusal inv (rw same at failed)
      ]

  project_message-Handled :
      (now n : ℕ) (message : Message F) (s : Stage k)
      → Handled now message s (project_message k now n message s).1
  unfolding project_message
  project_message-Handled now n message s =
      let e = message.event in
      let post = try_project-postgres k now n e s in
      elim (Result-cases (try_project k now n e s).0) [
        | inl (_, done) ↦ rw done (
            projected (
              project_to_postgres_returns k now e s.postgres (try_project_returns k now n e s done)
              ∙ ap (λ p. some (k.postgres.tables p)) (sym post)))
        | inr (error, failed) ↦ rw failed (
            sent_or_refused now n message error s _ (try_project-sqs k now n e s)
              (rw post (project_to_postgres-AtMostOnce k now e s.postgres)))
      ]

  project_message-commits :
      (now n : ℕ) (message : Message F) (s : Stage k)
      → (project_message k now n message s).0 ≡ ok tt
      → k.group.committed (project_message k now n message s).1.group ≡ n
  unfolding project_message send_to_dlq
  project_message-commits now n message s h =
      elim (Result-cases (try_project k now n message.event s).0) [
        | inl (_, done) ↦ rw done (try_project-commits k now n message.event s done)
        | inr (error, failed) ↦ rw failed (k.group.commit_returns n _ (rw failed at h))
      ]

  -- The look at Redis changes nothing of what `Handled` speaks of.
  looked-Handled :
      (now : ℕ) (message : Message F) (s s' : Stage k)
      → Handled now message
          (record s { redis = (k.redis.exists (processed_key message.event) s.redis).1 })
          s'
      → Handled now message s s'
  looked-Handled now message s s' (skipped held same) =
      skipped
        (rw
          (k.redis.exists_keeps (processed_key message.event) (processed_key message.event) s.redis)
          at held)
        same
  looked-Handled now message s s' (projected h) = projected h
  looked-Handled now message s s' (dead error handle inv found) = dead error handle inv found
  looked-Handled now message s s' (refused error refusal inv failed) =
      refused error refusal inv failed

  handle_value-Handled :
      (now n : ℕ) (message : Message F) (s : Stage k)
      → (handle_value k now n (some message) s).0 ≡ ok tt
      → Handled now message s (handle_value k now n (some message) s).1
  unfolding handle_value
  handle_value-Handled now n message s h =
      let e = message.event in
      elim (Bool-cases (has_id e)) [
        | inr without_id ↦ rw without_id (project_message-Handled now n message s)
        | inl with_id ↦ elim (Result-cases (k.redis.exists (processed_key e) s.redis).0) [
          | inr (_, failed) ↦ ground (arith, with_id, failed, h)
          | inl (already, looked) ↦ elim (Bool-cases already) [
            | inl held ↦
                rw (with_id, looked, held)
                  (skipped
                    (sym (k.redis.exists_returns (processed_key e) s.redis already looked) ∙ held)
                    refl)
            | inr fresh ↦
                rw (with_id, looked, fresh)
                  (looked-Handled now message s _ (project_message-Handled now n message _))
          ]
        ]
      ]

  unless_processed-commits :
      (now n : ℕ) (message : Message F) (already : Bool) (s : Stage k)
      → (unless_processed k now n message already s).0 ≡ ok tt
      → k.group.committed (unless_processed k now n message already s).1.group ≡ n
  unless_processed-commits now n message true s h = k.group.commit_returns n s.group h
  unless_processed-commits now n message false s h = project_message-commits now n message s h

  -- A round of the loop over a decoded record that returns has committed the offset of the
  -- record and dealt with it: its event was held as processed and the tables are left alone; or
  -- the tables are those of one projection of its event; or the message is on the dead letter
  -- queue; or that queue refused it, and the record is passed over all the same. In the last
  -- two cases the tables are as before or those of one projection.
  pub handle_value_returns :
      (now n : ℕ) (message : Message F) (s : Stage k)
      → (handle_value k now n (some message) s).0 ≡ ok tt
      → (k.group.committed (handle_value k now n (some message) s).1.group ≡ n)
        × Handled now message s (handle_value k now n (some message) s).1
  unfolding handle_value
  handle_value_returns now n message s h = (
    bind-ensures (already_processed k message.event)
        (λ already. unless_processed k now n message already) s (λ t. k.group.committed t.group ≡ n)
        tt (unless_processed-commits now n message) h,
    handle_value-Handled now n message s h,
  )
