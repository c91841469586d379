-- ===== src/Tests/Poison.antt =====
-- An event that is never projected, on the services in memory.
use event_sourcing_cqrs.Prelude.{ℕ, zero, suc, ◌≤◌, ◌≡◌, refl, none, some, [], ◌∷◌, Memᴰ}
use event_sourcing_cqrs.Exec.{Error, driver}
use event_sourcing_cqrs.Services.Queue.{Received}
use event_sourcing_cqrs.Publisher.{Message, record_of}
use event_sourcing_cqrs.Consumer.{DeadLetter, letter_of, count_or_zero}
use event_sourcing_cqrs.RetryHandler.{
  Outlets, Post, Counts, retry_record, dead_key, handle_message, republish, bury,
  publish_to_kafka_via_proxy,
}
use event_sourcing_cqrs.RetryHandler.Trips.{
  Trip, Trips, published, again, poison_ends, poison_buried,
}
use event_sourcing_cqrs.Tests.Memory.{memory_queue, memory_bucket, memory_proxy}
use event_sourcing_cqrs.Tests.Scenario.{filled}

abbrev pub outlets : Outlets ℕ
outlets = record { sqs = memory_queue; s3 = memory_bucket; kafka = memory_proxy }

abbrev pub refusal : Error
refusal = driver "numeric field overflow"

-- The message after `n` trips.
abbrev pub after_trips : ℕ → Message ℕ
after_trips zero = record { event = filled; retry_count = none }
after_trips (suc n) = record { event = filled; retry_count = some (suc n) }

abbrev received_after : ℕ → Received (DeadLetter ℕ)
received_after n = record { body = letter_of (after_trips n) refusal; receipt_handle = "first" }

abbrev pub posted : ℕ → Post outlets
posted n = record { sqs = some (letter_of (after_trips n) refusal); s3 = []; kafka = [] }

abbrev pub no_counts : Counts
no_counts = record { retried = 0; dead_lettered = 0 }

abbrev letter_after : ℕ → DeadLetter ℕ
letter_after n = letter_of (after_trips n) refusal

-- A trip of a letter that the handler sends back.
sent_back :
    (n : ℕ) (m : Message ℕ)
    → (retry_record (letter_after n)).value ≡ some m
    → (handle_message outlets (received_after n) no_counts (posted n)).1.kafka
      ≡ retry_record (letter_after n) ∷ []
    → Trip outlets (after_trips n) m
sent_back n m carries written = record {
  error = refusal;
  received = received_after n;
  letter = refl;
  counts = no_counts;
  post = posted n;
  sent = retry_record (letter_after n);
  carries = carries;
  written = written;
}

thrice : Trips outlets filled 3 (after_trips 3)
unfolding record_of retry_record handle_message republish publish_to_kafka_via_proxy
thrice =
    again 2 _ _
      (again 1 _ _
        (again 0 _ _ (published (after_trips 0) refl) (sent_back 0 (after_trips 1) refl refl))
        (sent_back 1 (after_trips 2) refl refl))
      (sent_back 2 (after_trips 3) refl refl)

poison_ends_example : (filled ≡ filled) × (count_or_zero (after_trips 3).retry_count ≡ 3) × (3 ≤ 3)
poison_ends_example = poison_ends outlets filled 3 (after_trips 3) thrice

poison_buried_example :
    Memᴰ
      (dead_key filled, letter_of (after_trips 3) refusal)
      (handle_message outlets (received_after 3) no_counts (posted 3)).1.s3
    × ((handle_message outlets (received_after 3) no_counts (posted 3)).1.kafka ≡ [])
unfolding handle_message bury
poison_buried_example =
    poison_buried outlets filled (after_trips 3) refusal (received_after 3) no_counts
      (record { retried = 0; dead_lettered = 1 }) (posted 3) thrice refl refl
