-- ===== src/Consumer.antt =====
-- consumers/main.py: the projection consumer, one Kafka record at a time.
pub mod Attempts
pub mod Try
pub mod Rounds
pub mod Constraints
pub mod Loop
pub mod Marks
pub mod Redelivery
pub mod Known
pub mod ExactlyOnce
pub mod Process
use Prim.Native.String.{◌++◌}
use event_sourcing_cqrs.Prelude.{
  ℕ, suc, String, not, str_eq, Option, none, some, List, [], ◌∷◌, Bool, true, false, if◌then◌else◌,
}
use event_sourcing_cqrs.Events.{Event, EventType, order_delivered, order_cancelled, event_type}
use event_sourcing_cqrs.Exec.{Exec, Error, Result, ok, err, pure, raise, ◌>>=◌, ◌>>◌}
use event_sourcing_cqrs.Exec.Retry.{retry}
use event_sourcing_cqrs.Services.Redis.{Redis}
use event_sourcing_cqrs.Services.Postgres.{Postgres}
use event_sourcing_cqrs.Services.Offsets.{Offsets}
use event_sourcing_cqrs.Services.Queue.{Queue}
use event_sourcing_cqrs.Numeric.{Numeric}
use event_sourcing_cqrs.ReadModel.{Tables}
use event_sourcing_cqrs.Projection.{project}
use event_sourcing_cqrs.EventStore.{EventCollection, set_expiry_for_aggregate}
use event_sourcing_cqrs.Publisher.{Message, KafkaRecord}

-- The body of a message on the dead letter queue.
pub record DeadLetter (F : Type 0) : Type 0 where
  pub message : Message F
  pub error : Error
  pub retry_count : ℕ

-- What the consumer is given.
pub record Sinks (F N : Type 0) : Type 1 where
  pub numeric : Numeric F N
  pub postgres : Postgres (Tables N)
  pub redis : Redis
  pub mongo : EventCollection F
  pub sqs : Queue (DeadLetter F)
  pub group : Offsets

-- The state of those services.
pub record Stage {F N : Type 0} (k : Sinks F N) : Type 0 where
  pub postgres : k.postgres.State
  pub redis : k.redis.State
  pub mongo : k.mongo.State
  pub sqs : k.sqs.State
  pub group : k.group.State

module _ {F N A : Type 0} {k : Sinks F N} where
  abbrev pub on_postgres : Exec k.postgres.State A → Exec (Stage k) A
  on_postgres m s = let (r, s') = m s.postgres in (r, record s { postgres = s' })

  abbrev pub on_redis : Exec k.redis.State A → Exec (Stage k) A
  on_redis m s = let (r, s') = m s.redis in (r, record s { redis = s' })

  abbrev pub on_mongo : Exec k.mongo.State A → Exec (Stage k) A
  on_mongo m s = let (r, s') = m s.mongo in (r, record s { mongo = s' })

  abbrev pub on_sqs : Exec k.sqs.State A → Exec (Stage k) A
  on_sqs m s = let (r, s') = m s.sqs in (r, record s { sqs = s' })

  abbrev pub on_group : Exec k.group.State A → Exec (Stage k) A
  on_group m s = let (r, s') = m s.group in (r, record s { group = s' })

abbrev pub count_or_zero : Option ℕ → ℕ
count_or_zero none = 0
count_or_zero (some n) = n

-- The event types after which the stored events may expire.
abbrev pub is_terminal : EventType → Bool
is_terminal order_delivered = true
is_terminal order_cancelled = true
is_terminal _ = false

-- `if event_id:`, an id that is not empty.
abbrev pub has_id : {F : Type 0} → Event F → Bool
has_id e = not (str_eq e.event_id "")

unfoldable pub processed_key : {F : Type 0} → Event F → String
processed_key e = "processed:" ++ e.event_id

unfoldable pub order_key : String → String
order_key order_id = "order:" ++ order_id

-- The letter that stands for a message whose projection raised `error`.
abbrev pub letter_of : {F : Type 0} → Message F → Error → DeadLetter F
letter_of message error = record {
  message = message;
  error = error;
  retry_count = count_or_zero message.retry_count;
}

module _ {F N : Type 0} (k : Sinks F N) where
  -- `send_to_dlq`: an exception of the queue is logged, and swallowed.
  unfoldable pub send_to_dlq : Message F → Error → Exec (Stage k) (Unit {0})
  send_to_dlq message error s =
      let (_, s') = on_sqs (k.sqs.send_message (letter_of message error)) s in (ok tt, s')

  -- `project_to_postgres`, under `@retry(stop=stop_after_attempt(3))`
  unfoldable pub project_to_postgres : ℕ → Event F → Exec k.postgres.State (Unit {0})
  project_to_postgres now e = retry 3 (k.postgres.transact (project k.numeric now e))

  -- `invalidate_cache`
  unfoldable pub invalidate_cache : String → Exec (Stage k) (Unit {0})
  invalidate_cache order_id = on_redis (k.redis.delete (order_key order_id))

  -- `consumer.commit()`, after the `n`-th record.
  abbrev pub commit : ℕ → Exec (Stage k) (Unit {0})
  commit n = on_group (k.group.commit n)

  -- After a terminal event the stored events of its order are given an expiry.
  abbrev pub expire_if_terminal : ℕ → Event F → Exec (Stage k) (Unit {0})
  expire_if_terminal now e =
      if is_terminal (event_type e)
      then on_mongo (set_expiry_for_aggregate k.mongo now e.aggregate_id)
      else pure tt

  -- An event with an id is marked as processed.
  abbrev pub mark_processed : Event F → Exec (Stage k) (Unit {0})
  mark_processed e =
      if has_id e then on_redis (k.redis.setex (processed_key e) 86400 "1") else pure tt

  -- The `try` block of the loop, which ends with the commit.
  unfoldable pub try_project : ℕ → ℕ → Event F → Exec (Stage k) (Unit {0})
  try_project now n e = do
    on_postgres (project_to_postgres now e)
    invalidate_cache e.aggregate_id
    mark_processed e
    expire_if_terminal now e
    commit n

  -- The `except` block: the dead letter queue, and the commit all the same.
  abbrev pub on_failure : ℕ → Message F → Result (Unit {0}) → Exec (Stage k) (Unit {0})
  on_failure n message (ok _) = pure tt
  on_failure n message (err error) = send_to_dlq message error >> commit n

  unfoldable pub project_message : ℕ → ℕ → Message F → Exec (Stage k) (Unit {0})
  project_message now n message s =
      let (r, s') = try_project now n message.event s in on_failure n message r s'

  -- A record whose event was processed is skipped, and its offset committed.
  abbrev pub unless_processed : ℕ → ℕ → Message F → Bool → Exec (Stage k) (Unit {0})
  unless_processed now n message already =
      if already then commit n else project_message now n message

  -- The look at Redis, for an event with an id.
  abbrev pub already_processed : Event F → Exec (Stage k) Bool
  already_processed e = if has_id e then on_redis (k.redis.exists (processed_key e)) else pure false

  -- One round of the loop of `consume`, for the record number `n` (from 1) of the partition. An
  -- exception leaves the loop: a value that is no JSON, the first look at Redis, and a commit
  -- outside the `try`.
  unfoldable pub handle_value : ℕ → ℕ → Option (Message F) → Exec (Stage k) (Unit {0})
  handle_value now n none = raise (Error.driver "JSONDecodeError")
  handle_value now n (some message) = do
    already ← already_processed message.event
    unless_processed now n message already

  abbrev pub handle_record : ℕ → ℕ → KafkaRecord F → Exec (Stage k) (Unit {0})
  handle_record now n rec = handle_value now n rec.value

  -- The loop over the records from number `n` on, each handled at its clock reading, until the
  -- first exception.
  unfoldable pub consume : ℕ → List (ℕ × KafkaRecord F) → Exec (Stage k) (Unit {0})
  consume n [] = pure tt
  consume n ((now, rec) ∷ rest) =
      let others = consume (suc n) rest in handle_record now (suc n) rec >> others
