-- ===== src/Tests/Streams.antt =====
-- The publisher, the retry handler and the archiver on the services in memory.
use event_sourcing_cqrs.Prelude.{
  ℕ, ◌∷◌, ◌≤◌, ◌≡◌, refl, sym, ap, true, none, some, List, [], ◌++◌, replicate, Memᴰ, arith,
}
use event_sourcing_cqrs.Events.{Event}
use event_sourcing_cqrs.Exec.{driver, ok-injective}
use event_sourcing_cqrs.Exec.Retry.{retry}
use event_sourcing_cqrs.Services.Redis.{is_some}
use event_sourcing_cqrs.Publisher.{
  Bus, record_of, published_key, publish, publish_once, send_and_mark,
}
use event_sourcing_cqrs.Publisher.Delivery.{publish_copies, publish_returns}
use event_sourcing_cqrs.Consumer.{DeadLetter}
use event_sourcing_cqrs.RetryHandler.{Outlets, Post, retry_record, handler}
use event_sourcing_cqrs.RetryHandler.Limit.{AllWithin, handler-AllWithin}
use event_sourcing_cqrs.RetryHandler.Conservation.{Kept, handler_keeps}
use event_sourcing_cqrs.Archiver.{Archive, Run}
use event_sourcing_cqrs.Tests.Memory.{
  memory_redis, memory_queue, memory_bucket, memory_group, memory_proxy,
}
use event_sourcing_cqrs.Tests.Scenario.{topic, created}

abbrev idle : Bus memory_redis.State topic.State
idle = record { redis = λ k. none; kafka = [] }

publish_copies_example :
    (n : ℕ) × (n ≤ 3)
    × ((publish memory_redis topic created idle).1.kafka ≡ [] ++ replicate n (record_of created))
publish_copies_example = publish_copies memory_redis topic created idle

publish_returns_example :
    (n : ℕ) × (1 ≤ n)
    × (n ≤ 3)
    × ((publish memory_redis topic created idle).1.kafka ≡ [] ++ replicate n (record_of created))
    × (is_some ((publish memory_redis topic created idle).1.redis (published_key created)) ≡ true)
unfolding publish publish_once send_and_mark retry
publish_returns_example = publish_returns memory_redis topic created idle refl refl

abbrev outlets : Outlets ℕ
outlets = record { sqs = memory_queue; s3 = memory_bucket; kafka = memory_proxy }

abbrev weary : DeadLetter ℕ
weary = record {
  message = record { event = created; retry_count = some 2 };
  error = driver "connection refused";
  retry_count = 2;
}

abbrev last_chance : Post outlets
last_chance = record { sqs = some weary; s3 = []; kafka = retry_record weary ∷ [] }

handler-AllWithin_example : AllWithin (handler outlets last_chance).1.kafka
unfolding retry_record
handler-AllWithin_example = handler-AllWithin outlets last_chance (omega arith, tt)

abbrev one_letter : Post outlets
one_letter = record { sqs = some weary; s3 = []; kafka = [] }

handler_keeps_example :
    Kept outlets (record { body = weary; receipt_handle = "first" }) (handler outlets one_letter).1
handler_keeps_example =
    handler_keeps outlets one_letter (record { body = weary; receipt_handle = "first" })
      (Memᴰ.head refl)
      (λ s answer posted accepted. ap (λ a. a.error_code) (sym (ok-injective posted)))

abbrev pub bucket : Archive (Event ℕ)
bucket = record {
  s3 = memory_bucket;
  group = memory_group;
  key_at = λ now last. "archive/part.json";
}

abbrev many : List (ℕ × Event ℕ)
many = replicate 101 (70, created)

abbrev pub fresh_run : Run bucket
fresh_run = record { s3 = []; group = 0; batch = []; last_offset = 0 }
