-- ===== src/Consumer/Redelivery.antt =====
-- Records that the topic delivers to the loop of consumers/main.py again.
use event_sourcing_cqrs.Prelude.{
  ℕ, suc, String, ◌≡◌, refl, sym, ◌∙◌, ◌⊎◌, inl, inr, Option, none, some, true, List, [], ◌∷◌, Memᴰ,
  arith, Bool-cases,
}
use event_sourcing_cqrs.Events.{Event}
use event_sourcing_cqrs.Exec.{ok, Result-cases}
use event_sourcing_cqrs.Exec.Chain.{bind-cases}
use event_sourcing_cqrs.Publisher.{Message, KafkaRecord}
use event_sourcing_cqrs.Consumer.{
  Sinks, Stage, has_id, processed_key, try_project, project_message, handle_value, handle_record,
  consume,
}
use event_sourcing_cqrs.Consumer.Marks.{
  IsMarked, handle_value-IsMarked, consume-IsMarked, try_project-marks,
}

-- The values of the records.
abbrev pub values_of : {F : Type 0} → List (ℕ × KafkaRecord F) → List (Option (Message F))
values_of [] = []
values_of ((_, rec) ∷ rest) = rec.value ∷ values_of rest

-- Every value of a list is in another.
abbrev pub AllAmong : {A : Type 0} → List A → List A → Type 0
AllAmong [] seen = Unit
AllAmong (v ∷ vs) seen = Memᴰ v seen × AllAmong vs seen

module _ {F N : Type 0} (k : Sinks F N) where
  abbrev looked : Event F → Stage k → Stage k
  looked e s = record s { redis = (k.redis.exists (processed_key e) s.redis).1 }

  -- A round over a record whose event has an id. It returns, and the event is held as processed
  -- already or its `try` block returns.
  abbrev pub GoesWell : ℕ → ℕ → Option (Message F) → Stage k → Type 0
  GoesWell now n none s = ⊥
  GoesWell now n (some message) s =
      (has_id message.event ≡ true)
      × ((handle_value k now n (some message) s).0 ≡ ok tt)
      × (IsMarked k message.event s
          ⊎ ((try_project k now n message.event (looked message.event s)).0 ≡ ok tt))

  -- Each round of the loop goes well.
  abbrev pub AllGoWell : ℕ → List (ℕ × KafkaRecord F) → Stage k → Type 0
  AllGoWell n [] s = Unit
  AllGoWell n ((now, rec) ∷ rest) s =
      GoesWell now (suc n) rec.value s
      × AllGoWell (suc n) rest (handle_record k now (suc n) rec s).1

  -- The database, the dead letter queue, the stored events and the keys of Redis are left alone.
  pub record LeftAlone (s s' : Stage k) : Type 0 where
    pub postgres_same : s'.postgres ≡ s.postgres
    pub sqs_same : s'.sqs ≡ s.sqs
    pub mongo_same : s'.mongo ≡ s.mongo
    pub redis_same : (key : String) → k.redis.lookup key s'.redis ≡ k.redis.lookup key s.redis

  LeftAlone-trans : {s₁ s₂ s₃ : Stage k} → LeftAlone s₁ s₂ → LeftAlone s₂ s₃ → LeftAlone s₁ s₃
  LeftAlone-trans a b = record {
    postgres_same = b.postgres_same ∙ a.postgres_same;
    sqs_same = b.sqs_same ∙ a.sqs_same;
    mongo_same = b.mongo_same ∙ a.mongo_same;
    redis_same = λ key. b.redis_same key ∙ a.redis_same key;
  }

  looked-LeftAlone :
      (e : Event F) (s : Stage k) (g : k.group.State)
      → LeftAlone s (record (looked e s) { group = g })
  looked-LeftAlone e s g = record {
    postgres_same = refl;
    sqs_same = refl;
    mongo_same = refl;
    redis_same = λ key. k.redis.exists_keeps (processed_key e) key s.redis;
  }

  -- A decoded event that Redis holds as processed.
  abbrev Known : Option (Message F) → Stage k → Type 0
  Known none s = ⊥
  Known (some message) s = (has_id message.event ≡ true) × IsMarked k message.event s

  abbrev AllKnown : List (Option (Message F)) → Stage k → Type 0
  AllKnown [] s = Unit
  AllKnown (v ∷ vs) s = Known v s × AllKnown vs s

  Known-handle_value :
      (now n : ℕ) (v w : Option (Message F)) (s : Stage k)
      → Known v s
      → Known v (handle_value k now n w s).1
  Known-handle_value now n none w s h = absurd h
  Known-handle_value now n (some message) w s (has, held) =
      (has, handle_value-IsMarked k message.event now n w s held)

  Known-consume :
      (n : ℕ) (records : List (ℕ × KafkaRecord F)) (v : Option (Message F)) (s : Stage k)
      → Known v s
      → Known v (consume k n records s).1
  Known-consume n records none s h = absurd h
  Known-consume n records (some message) s (has, held) =
      (has, consume-IsMarked k message.event n records s held)

  AllKnown-handle_value :
      (now n : ℕ) (vs : List (Option (Message F))) (w : Option (Message F)) (s : Stage k)
      → AllKnown vs s
      → AllKnown vs (handle_value k now n w s).1
  AllKnown-handle_value now n [] w s h = tt
  AllKnown-handle_value now n (v ∷ vs) w s (known, others) =
      (Known-handle_value now n v w s known, AllKnown-handle_value now n vs w s others)

  -- A `try` block that returns, for an event that was not held as processed.
  fresh-IsMarked :
      (now n : ℕ) (message : Message F) (s : Stage k)
      → has_id message.event ≡ true
      → (try_project k now n message.event s).0 ≡ ok tt
      → IsMarked k message.event (project_message k now n message s).1
  unfolding project_message
  fresh-IsMarked now n message s has done =
      rw done (try_project-marks k now n message.event s has done)

  handle_value-Known :
      (now n : ℕ) (v : Option (Message F)) (s : Stage k)
      → GoesWell now n v s
      → Known v (handle_value k now n v s).1
  unfolding handle_value
  handle_value-Known now n none s h = absurd h
  handle_value-Known now n (some message) s (has, done, inl held) =
      (has, handle_value-IsMarked k message.event now n (some message) s held)
  handle_value-Known now n (some message) s (has, done, inr projected) =
      let key = processed_key message.event in
      elim (Result-cases (k.redis.exists key s.redis).0) [
        | inr (_, failed) ↦ ground (arith, has, failed, done)
        | inl (already, answered) ↦ elim (Bool-cases already) [
          | inl held ↦
              let was = sym (k.redis.exists_returns key s.redis already answered) ∙ held in
              (has, handle_value-IsMarked k message.event now n (some message) s was)
          | inr fresh ↦ (
            has,
            rw (has, answered, fresh)
                (fresh-IsMarked now n message (looked message.event s) has projected),
          )
        ]
      ]

  pub handle_value-LeftAlone :
      (now n : ℕ) (v : Option (Message F)) (s : Stage k)
      → Known v s
      → LeftAlone s (handle_value k now n v s).1
  unfolding handle_value
  handle_value-LeftAlone now n none s h = absurd h
  handle_value-LeftAlone now n (some message) s (has, held) =
      let key = processed_key message.event in
      elim (Result-cases (k.redis.exists key s.redis).0) [
        | inr (_, failed) ↦ rw (has, failed) (looked-LeftAlone message.event s s.group)
        | inl (already, answered) ↦
            let is = k.redis.exists_returns key s.redis already answered ∙ held in
            rw (has, answered, is) (looked-LeftAlone message.event s _)
      ]

  consume-LeftAlone :
      (n : ℕ) (records : List (ℕ × KafkaRecord F)) (s : Stage k)
      → AllKnown (values_of records) s
      → LeftAlone s (consume k n records s).1
  unfolding consume
  consume-LeftAlone n [] s h = record {
    postgres_same = refl;
    sqs_same = refl;
    mongo_same = refl;
    redis_same = λ key. refl;
  }
  consume-LeftAlone n ((now, rec) ∷ rest) s (known, others) =
      let first = handle_value-LeftAlone now (suc n) rec.value s known in
      elim (bind-cases (handle_record k now (suc n) rec) (λ _. consume k (suc n) rest) s) [
        | inr (_, _, ends) ↦ rw ends first
        | inl (_, _, goes_on) ↦ rw goes_on (
            LeftAlone-trans first (
              consume-LeftAlone (suc n) rest (handle_record k now (suc n) rec s).1
                (AllKnown-handle_value now (suc n) (values_of rest) rec.value s others)))
      ]

  pub GoesWell-returns :
      (now n : ℕ) (v : Option (Message F)) (s : Stage k)
      → GoesWell now n v s
      → (handle_value k now n v s).0 ≡ ok tt
  GoesWell-returns now n none s h = absurd h
  GoesWell-returns now n (some message) s (_, done, _) = done

  mem-Known :
      (n : ℕ) (records : List (ℕ × KafkaRecord F)) (s : Stage k)
      → AllGoWell n records s
      → (v : Option (Message F)) → Memᴰ v (values_of records)
      → Known v (consume k n records s).1
  unfolding consume
  mem-Known n [] s h v m = elim m [ ]
  mem-Known n ((now, rec) ∷ rest) s (well, all) v (Memᴰ.head e) =
      rw (GoesWell-returns now (suc n) rec.value s well) (
        Known-consume (suc n) rest v (handle_record k now (suc n) rec s).1
          (rw e (handle_value-Known now (suc n) rec.value s well)))
  mem-Known n ((now, rec) ∷ rest) s (well, all) v (Memᴰ.tail m) =
      rw (GoesWell-returns now (suc n) rec.value s well)
        (mem-Known (suc n) rest (handle_record k now (suc n) rec s).1 all v m)

  AllAmong-Known :
      (vs : List (Option (Message F))) (n : ℕ) (records : List (ℕ × KafkaRecord F)) (s : Stage k)
      → AllGoWell n records s
      → AllAmong vs (values_of records)
      → AllKnown vs (consume k n records s).1
  AllAmong-Known [] n records s h among = tt
  AllAmong-Known (v ∷ vs) n records s h (m, ms) =
      (mem-Known n records s h v m, AllAmong-Known vs n records s h ms)

  -- In a run of the consumer's loop every record has an event with an id, each round returns,
  -- and the event was held as processed or its `try` block returned. While Redis keeps these
  -- marks, a later run over any records with the same values, in any order and any number of
  -- times, leaves the database, the dead letter queue, the stored events and the keys of Redis
  -- as they are, however it ends.
  pub consume_again :
      (n m : ℕ) (records again : List (ℕ × KafkaRecord F)) (s : Stage k)
      → AllGoWell n records s
      → AllAmong (values_of again) (values_of records)
      → LeftAlone (consume k n records s).1 (consume k m again (consume k n records s).1).1
  consume_again n m records again s h among =
      consume-LeftAlone m again (consume k n records s).1
        (AllAmong-Known (values_of again) n records s h among)
