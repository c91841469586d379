-- ===== src/Publisher/Delivery.antt =====
-- What `publish` sends: how many copies, and when none.
use mathlib.Core.List.{append-nil, append_assoc}
use event_sourcing_cqrs.Prelude.{
  ◌≢◌, ℕ, zero, suc, ◌+◌, ◌≤◌, ◌≡◌, refl, sym, ap, ◌∙◌, inl, inr, Bool, true, false, List, ◌++◌,
  arith, replicate, replicate-add,
}
use event_sourcing_cqrs.Events.{Event}
use event_sourcing_cqrs.Exec.{Result, ok, err, Error, Result-cases}
use event_sourcing_cqrs.Exec.Retry.{retry, retry-ok, retry-err}
use event_sourcing_cqrs.Services.Redis.{Redis, is_some}
use event_sourcing_cqrs.Publisher.{
  Topic, Bus, KafkaRecord, record_of, published_key, send_and_mark, publish_once, publish,
}

module _ {F : Type 0} (redis : Redis) (kafka : Topic F) (e : Event F) where
  abbrev S : Type 0
  S = Bus redis.State kafka.State

  abbrev log_of : S → List (KafkaRecord F)
  log_of b = kafka.log b.kafka

  -- The event's key is in Redis.
  abbrev held : S → Bool
  held b = is_some (redis.lookup (published_key e) b.redis)

  -- What at most `most` attempts did from `b`, when they ended with `r` in `b'`.
  record Sends (most : ℕ) (b : S) (r : Result (Unit {0})) (b' : S) : Type 0 where
    count : ℕ
    bound : count ≤ most
    sent : log_of b' ≡ log_of b ++ replicate count (record_of e)
    marked : r ≡ ok tt → held b' ≡ true
    unmarked : count ≡ 0 → held b' ≡ held b
    skipped : held b ≡ true → count ≡ 0

  -- An attempt that sends, and then marks the key or fails to.
  Sends-send :
      (b : S)
      → held b ≡ false
      → Sends 1 b (send_and_mark redis kafka e b).0 (send_and_mark redis kafka e b).1
  unfolding send_and_mark
  Sends-send b free = elim (Result-cases (kafka.send (record_of e) b.kafka).0) [
    | inr (error, lost) ↦ rw lost (elim (kafka.send_raises (record_of e) b.kafka error lost) [
      | inl same ↦ record {
        count = 0;
        bound = omega arith;
        sent = rw append-nil same;
        marked = λ h. cc h;
        unmarked = λ _. refl;
        skipped = λ _. refl;
      }
      | inr written ↦ record {
        count = 1;
        bound = omega arith;
        sent = written;
        marked = λ h. cc h;
        unmarked = λ h. cc h;
        skipped = λ h. cc (h, free);
      }
    ])
    | inl (_, acked) ↦ rw acked (
        let written = kafka.send_returns (record_of e) b.kafka acked in
        elim (Result-cases (redis.setex (published_key e) 86400 "1" b.redis).0) [
          | inl (_, set) ↦ rw set (record {
            count = 1;
            bound = omega arith;
            sent = written;
            marked = λ _. rw (redis.setex_returns (published_key e) 86400 "1" b.redis set);
            unmarked = λ h. cc h;
            skipped = λ h. cc (h, free);
          })
          | inr (_, failed) ↦ rw failed (record {
            count = 1;
            bound = omega arith;
            sent = written;
            marked = λ h. cc h;
            unmarked = λ h. cc h;
            skipped = λ h. cc (h, free);
          })
        ])
  ]

  Sends-once : (b : S) → Sends 1 b (publish_once redis kafka e b).0 (publish_once redis kafka e b).1
  unfolding publish_once
  Sends-once b =
      let key = published_key e in
      let same = ap is_some (redis.exists_keeps key key b.redis) in
      elim (Result-cases (redis.exists key b.redis).0) [
        | inr (_, failed) ↦ rw failed (record {
          count = 0;
          bound = omega arith;
          sent = rw append-nil;
          marked = λ h. cc h;
          unmarked = λ _. same;
          skipped = λ _. refl;
        })
        | inl (true, found) ↦ rw found (record {
          count = 0;
          bound = omega arith;
          sent = rw append-nil;
          marked = λ _. same ∙ sym (redis.exists_returns key b.redis true found);
          unmarked = λ _. same;
          skipped = λ _. refl;
        })
        | inl (false, missing) ↦ rw missing (
            let b' = record b { redis = (redis.exists key b.redis).1 } in
            let free = sym (redis.exists_returns key b.redis false missing) in
            let step = Sends-send b' (same ∙ free) in
            record {
              count = step.count;
              bound = step.bound;
              sent = step.sent;
              marked = step.marked;
              unmarked = λ h. step.unmarked h ∙ same;
              skipped = λ h. cc (h, free);
            })
      ]

  -- A failed attempt, and then what the later ones did.
  Sends-then :
      (n : ℕ) (b b' b'' : S) (error : Error) (r : Result (Unit {0}))
      → Sends 1 b (err error) b'
      → Sends n b' r b''
      → Sends (suc n) b r b''
  Sends-then n b b' b'' error r first rest = record {
    count = first.count + rest.count;
    bound = omega (arith, first.bound, rest.bound);
    sent = rest.sent ∙ rw first.sent (rw append_assoc (rw replicate-add));
    marked = rest.marked;
    unmarked = λ h. rest.unmarked (omega arith) ∙ first.unmarked (omega arith);
    skipped = λ h.
        let none_first = first.skipped h in
        let none_rest = rest.skipped (first.unmarked none_first ∙ h) in
        omega (arith, none_first, none_rest);
  }

  Sends-retry :
      (n : ℕ) (b : S)
      → Sends n b
          (retry n (publish_once redis kafka e) b).0
          (retry n (publish_once redis kafka e) b).1
  unfolding retry
  Sends-retry zero b = record {
    count = 0;
    bound = omega arith;
    sent = rw append-nil;
    marked = λ h. cc h;
    unmarked = λ _. refl;
    skipped = λ _. refl;
  }
  Sends-retry (suc n) b = elim (Result-cases (publish_once redis kafka e b).0) [
    | inl (_, done) ↦
        let first = rw done at (Sends-once b) in
        rw (retry-ok n (publish_once redis kafka e) b _ done) (record {
          count = first.count;
          bound = omega (arith, first.bound);
          sent = first.sent;
          marked = first.marked;
          unmarked = first.unmarked;
          skipped = first.skipped;
        })
    | inr (error, failed) ↦
        let first = rw failed at (Sends-once b) in
        rw (retry-err n (publish_once redis kafka e) b error failed)
          (Sends-then n b _ _ error _ first (Sends-retry n (publish_once redis kafka e b).1))
  ]

module _ {F : Type 0} (redis : Redis) (kafka : Topic F) (e : Event F)
    (b : Bus redis.State kafka.State) where
  -- However it ends, a call of `publish` appends at most three copies of the event's one record
  -- to the topic, and nothing else.
  pub publish_copies :
      (n : ℕ) × (n ≤ 3)
      × (kafka.log (publish redis kafka e b).1.kafka
          ≡ kafka.log b.kafka ++ replicate n (record_of e))
  unfolding publish
  publish_copies =
      let sends = Sends-retry redis kafka e 3 b in (sends.count, sends.bound, sends.sent)

  -- A call of `publish` that returns, for an event whose key was not in Redis, has appended
  -- from one to three copies of its record to the topic, and its key is in Redis.
  pub publish_returns :
      is_some (redis.lookup (published_key e) b.redis) ≡ false
      → (publish redis kafka e b).0 ≡ ok tt
      → (n : ℕ) × (1 ≤ n)
        × (n ≤ 3)
        × (kafka.log (publish redis kafka e b).1.kafka
            ≡ kafka.log b.kafka ++ replicate n (record_of e))
        × (is_some (redis.lookup (published_key e) (publish redis kafka e b).1.redis) ≡ true)
  unfolding publish
  publish_returns free returned =
      let sends = Sends-retry redis kafka e 3 b in
      let marked = sends.marked returned in
      let some_sent : sends.count ≢ 0 = λ none_sent. cc (sends.unmarked none_sent, marked, free) in
      (sends.count, omega (arith, some_sent), sends.bound, sends.sent, marked)

  -- While the key of the event is in Redis, a call of `publish` leaves the topic as it is,
  -- however it ends.
  pub publish_again :
      is_some (redis.lookup (published_key e) b.redis) ≡ true
      → kafka.log (publish redis kafka e b).1.kafka ≡ kafka.log b.kafka
  unfolding publish
  publish_again held_now =
      let sends = Sends-retry redis kafka e 3 b in
      let none_sent = sends.skipped held_now in sends.sent ∙ rw none_sent (rw append-nil)
