-- ===== src/Publisher.antt =====
-- api/services/publisher.py: publishing events to Kafka, with a key in Redis against duplicates.
-- The JSON text of a record is the libraries' (`orjson`); the model holds what it decodes to.
pub mod Delivery
use event_sourcing_cqrs.Prelude.{ℕ, String, Bool, Option, none, some, List, [], ◌∷◌, if◌then◌else◌}
use Prim.Native.String.{◌++◌}
use event_sourcing_cqrs.Events.{Event, event_type, type_value}
use event_sourcing_cqrs.Exec.{Exec, pure, ◌>>=◌, ◌>>◌}
use event_sourcing_cqrs.Exec.Retry.{retry}
use event_sourcing_cqrs.Services.Redis.{Redis}
use event_sourcing_cqrs.Services.Kafka.{Kafka}

-- The dictionary in a record's value: an event, with the `retry_count` that the retry handler adds.
pub record Message (F : Type 0) : Type 0 where
  pub event : Event F
  pub retry_count : Option ℕ

-- A record of the topic `order-events`. The value is `none` where the bytes are no JSON event.
pub record KafkaRecord (F : Type 0) : Type 0 where
  pub key : String
  pub value : Option (Message F)
  pub headers : List (String × String)

abbrev pub Topic : Type 0 → Type 1
Topic F = Kafka (KafkaRecord F)

-- The record that `publish` sends: its key, the partition key, is the order id.
unfoldable pub record_of : {F : Type 0} → Event F → KafkaRecord F
record_of event = record {
  key = event.aggregate_id;
  value = some (record { event = event; retry_count = none });
  headers =
      ("event_type", type_value (event_type event)) ∷ ("correlation_id", event.correlation_id) ∷ [];
}

unfoldable pub published_key : {F : Type 0} → Event F → String
published_key event = "published:" ++ event.event_id

-- What the publisher writes to: Redis and the topic.
pub record Bus (R K : Type 0) : Type 0 where
  pub redis : R
  pub kafka : K

module _ {R K A : Type 0} where
  abbrev pub on_redis : Exec R A → Exec (Bus R K) A
  on_redis m b = let (r, s) = m b.redis in (r, record b { redis = s })

  abbrev pub on_kafka : Exec K A → Exec (Bus R K) A
  on_kafka m b = let (r, s) = m b.kafka in (r, record b { kafka = s })

module _ {F : Type 0} (redis : Redis) (kafka : Topic F) where
  -- The `try` block of `publish`: its `except` only logs, and raises again.
  unfoldable pub send_and_mark : Event F → Exec (Bus redis.State kafka.State) (Unit {0})
  send_and_mark event = do
    on_kafka (kafka.send (record_of event))
    on_redis (redis.setex (published_key event) 86400 "1")

  -- One attempt of `publish`.
  unfoldable pub publish_once : Event F → Exec (Bus redis.State kafka.State) (Unit {0})
  publish_once event = do
    already_published ← on_redis (redis.exists (published_key event))
    if already_published then pure tt else send_and_mark event

  -- `publish`, under `@retry(stop=stop_after_attempt(3))`
  unfoldable pub publish : Event F → Exec (Bus redis.State kafka.State) (Unit {0})
  publish event = retry 3 (publish_once event)
