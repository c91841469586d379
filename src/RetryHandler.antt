-- ===== src/RetryHandler.antt =====
-- lambda_handlers/retry_handler.py: the Lambda that polls the dead letter queue.
pub mod Conservation
pub mod Limit
pub mod Trips
pub mod Recovery
pub mod Proxy
use Prim.Native.String.{◌++◌}
use event_sourcing_cqrs.Prelude.{
  ℕ, suc, ◌+◌, String, Option, none, some, List, [], ◌∷◌, Bool, true, false, leb, if◌then◌else◌,
}
use event_sourcing_cqrs.Events.{Event}
use event_sourcing_cqrs.Exec.{Exec, Error, Result, ok, err, driver, pure, raise, ◌>>=◌, ◌>>◌}
use event_sourcing_cqrs.Services.Queue.{Queue, Received}
use event_sourcing_cqrs.Services.ObjectStore.{ObjectStore}
use event_sourcing_cqrs.Publisher.{Message, KafkaRecord}
use event_sourcing_cqrs.Services.RestProxy.{RestProxy, is_accepted}
use event_sourcing_cqrs.Consumer.{DeadLetter}

-- What the handler is given: the queue, the bucket, and the topic through the REST proxy, which
-- `publish_to_kafka_via_proxy` posts to.
pub record Outlets (F : Type 0) : Type 1 where
  pub sqs : Queue (DeadLetter F)
  pub s3 : ObjectStore (DeadLetter F)
  pub kafka : RestProxy (KafkaRecord F)

pub record Post {F : Type 0} (o : Outlets F) : Type 0 where
  pub sqs : o.sqs.State
  pub s3 : o.s3.State
  pub kafka : o.kafka.State

module _ {F A : Type 0} {o : Outlets F} where
  abbrev pub on_sqs : Exec o.sqs.State A → Exec (Post o) A
  on_sqs m p = let (r, s) = m p.sqs in (r, record p { sqs = s })

  abbrev pub on_s3 : Exec o.s3.State A → Exec (Post o) A
  on_s3 m p = let (r, s) = m p.s3 in (r, record p { s3 = s })

  abbrev pub on_kafka : Exec o.kafka.State A → Exec (Post o) A
  on_kafka m p = let (r, s) = m p.kafka in (r, record p { kafka = s })

abbrev pub max_retries : ℕ
max_retries = 3

-- The numbers that the handler returns.
pub record Counts : Type 0 where
  pub retried : ℕ
  pub dead_lettered : ℕ

-- The key of a dead event in the bucket.
unfoldable pub dead_key : {F : Type 0} → Event F → String
dead_key e = "dead-letters/" ++ e.aggregate_id ++ "/" ++ e.event_id ++ ".json"

-- The record that goes back to the topic: the event's dictionary with the new `retry_count`.
unfoldable pub retry_record : {F : Type 0} → DeadLetter F → KafkaRecord F
retry_record letter = record {
  key = letter.message.event.aggregate_id;
  value = some (record letter.message { retry_count = some (letter.retry_count + 1) });
  headers = [];
}

module _ {M : Type 0} (proxy : RestProxy M) where
  abbrev pub check_status : ℕ → Exec proxy.State (Unit {0})
  check_status status =
      if is_accepted status then pure tt else raise (driver "Unexpected status from REST proxy")

  -- The body of the answer, with its error codes, is not read.
  unfoldable pub publish_to_kafka_via_proxy : M → Exec proxy.State (Unit {0})
  publish_to_kafka_via_proxy m = do answer ← proxy.post m; check_status answer.status

module _ {F : Type 0} (o : Outlets F) where
  -- `delete_message` for a message that is done with, which counts it.
  abbrev pub delete_then : Received (DeadLetter F) → Counts → Exec (Post o) Counts
  delete_then msg counts = do on_sqs (o.sqs.delete_message msg.receipt_handle); pure counts

  -- An event that has been retried often enough goes to the bucket; the time in the object, its
  -- `dead_at`, is left out.
  unfoldable pub bury : Received (DeadLetter F) → Counts → Exec (Post o) Counts
  bury msg counts = do
    on_s3 (o.s3.put_object (dead_key msg.body.message.event) msg.body)
    delete_then msg (record counts { dead_lettered = counts.dead_lettered + 1 })

  -- The `except` of the publish: a message that was not published stays in the queue.
  abbrev pub after_publish :
      Received (DeadLetter F) → Counts → Result (Unit {0}) → Exec (Post o) Counts
  after_publish msg counts (ok _) = delete_then msg (record counts { retried = counts.retried + 1 })
  after_publish msg counts (err _) = pure counts

  -- Any other event is published again.
  unfoldable pub republish : Received (DeadLetter F) → Counts → Exec (Post o) Counts
  republish msg counts p =
      let (r, p') = on_kafka (publish_to_kafka_via_proxy o.kafka (retry_record msg.body)) p in
      after_publish msg counts r p'

  -- The body of the `for` loop.
  unfoldable pub handle_message : Received (DeadLetter F) → Counts → Exec (Post o) Counts
  handle_message msg counts =
      if leb max_retries msg.body.retry_count then bury msg counts else republish msg counts

  pub handle_messages : List (Received (DeadLetter F)) → Counts → Exec (Post o) Counts
  handle_messages [] counts = pure counts
  handle_messages (msg ∷ rest) counts = do
    counts' ← handle_message msg counts
    handle_messages rest counts'

  -- `handler`; with no messages it counts nothing.
  pub handler : Exec (Post o) Counts
  handler = do
    messages ← on_sqs o.sqs.receive_message
    handle_messages messages (record { retried = 0; dead_lettered = 0 })
