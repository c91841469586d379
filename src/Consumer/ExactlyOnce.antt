-- ===== src/Consumer/ExactlyOnce.antt =====
-- The loop of consumers/main.py over records of which some are of events that it has processed, or
-- that other records carry too.
use mathlib.Core.Path.{fun_ext}
use event_sourcing_cqrs.Prelude.{
  ℕ, suc, ◌≡◌, Option-cases, refl, sym, ap, ap₂, ◌∙◌, inl, inr, none, some, Bool, true, false, ◌||◌,
  List, [], ◌∷◌, arith, str_eq, Bool-cases, if◌then◌else◌,
}
use event_sourcing_cqrs.Events.{Event}
use event_sourcing_cqrs.Exec.{ok, Result-cases}
use event_sourcing_cqrs.Services.Redis.{is_some}
use event_sourcing_cqrs.Publisher.{Message, KafkaRecord}
use event_sourcing_cqrs.ReadModel.{Tables}
use event_sourcing_cqrs.Projection.{project}
use event_sourcing_cqrs.Projection.Refinement.{project_all}
use event_sourcing_cqrs.Consumer.{
  Sinks, Stage, has_id, processed_key, try_project, project_message, handle_value, consume,
}
use event_sourcing_cqrs.Consumer.Attempts.{project_to_postgres_returns}
use event_sourcing_cqrs.Consumer.Try.{try_project-postgres, try_project_returns}
use event_sourcing_cqrs.Consumer.Known.{known_in, try_project-known}
use event_sourcing_cqrs.Consumer.Redelivery.{
  GoesWell, AllGoWell, handle_value-LeftAlone, GoesWell-returns,
}

-- The events of a list that are not known, each the first time that its id comes.
unfoldable pub new_events :
    {F : Type 0} → (Event F → Bool) → List (ℕ × Event F) → List (ℕ × Event F)
new_events known [] = []
new_events known ((now, e) ∷ rest) =
    let others = new_events (λ d. str_eq d.event_id e.event_id || known d) rest in
    let without = new_events known rest in if known e then without else (now, e) ∷ others

-- The decoded events of the records, with the clock readings of their rounds.
abbrev pub events_in : {F : Type 0} → List (ℕ × KafkaRecord F) → List (ℕ × Event F)
events_in [] = []
events_in ((now, rec) ∷ rest) = elim rec.value [
  | none ↦ events_in rest
  | some message ↦ (now, message.event) ∷ events_in rest
]

module _ {F N : Type 0} (k : Sinks F N) where
  abbrev pub tables_of : Stage k → Tables N
  tables_of s = k.postgres.tables s.postgres

  abbrev pub looked : Event F → Stage k → Stage k
  looked e s = record s { redis = (k.redis.exists (processed_key e) s.redis).1 }

  pub looked-known : (e d : Event F) (s : Stage k) → known_in k (looked e s) d ≡ known_in k s d
  looked-known e d s = ap is_some (k.redis.exists_keeps (processed_key e) (processed_key d) s.redis)

  -- What a round makes of the tables and of the marks, for a new event.
  abbrev pub Projected : ℕ → Event F → Stage k → Stage k → Type 0
  Projected now e s s' =
      (project k.numeric now e (tables_of s) ≡ some (tables_of s'))
      × ((d : Event F) → known_in k s' d ≡ (str_eq d.event_id e.event_id || known_in k s d))

  pub project_message-Projected :
      (now n : ℕ) (message : Message F) (s : Stage k)
      → has_id message.event ≡ true
      → (try_project k now n message.event s).0 ≡ ok tt
      → Projected now message.event s (project_message k now n message s).1
  unfolding project_message
  project_message-Projected now n message s has done =
      let e = message.event in
      let post = try_project-postgres k now n e s in
      rw done (
        project_to_postgres_returns k now e s.postgres (try_project_returns k now n e s done)
            ∙ ap (λ t. some (k.postgres.tables t)) (sym post),
        λ d. try_project-known k now n e d s has done,
      )

  handle_value-Projected :
      (now n : ℕ) (message : Message F) (s : Stage k)
      → GoesWell k now n (some message) s
      → known_in k s message.event ≡ false
      → Projected now message.event s (handle_value k now n (some message) s).1
  unfolding handle_value
  handle_value-Projected now n message s (has, done, inl held) new = ground (arith, held, new)
  handle_value-Projected now n message s (has, done, inr returns) new =
      let e = message.event in
      elim (Result-cases (k.redis.exists (processed_key e) s.redis).0) [
        | inr (_, failed) ↦ ground (arith, has, failed, done)
        | inl (already, answered) ↦
            let fresh = k.redis.exists_returns (processed_key e) s.redis already answered ∙ new in
            let (projected, marked) =
              project_message-Projected now n message (looked e s) has returns in
            rw (has, answered, fresh)
              (
                projected,
                λ d. marked d ∙ ap (λ b. str_eq d.event_id e.event_id || b) (looked-known e d s),
              )
      ]

  -- A step of the loop for a record with a message.
  module _ (now n : ℕ) (message : Message F) (rest : List (ℕ × Event F)) (s : Stage k)
      (well : GoesWell k now n (some message) s) (final : Tables N) where
    round-new_events :
        project_all k.numeric
            (new_events (known_in k (handle_value k now n (some message) s).1) rest)
            (tables_of (handle_value k now n (some message) s).1)
          ≡ some final
        → project_all k.numeric
            (new_events (known_in k s) ((now, message.event) ∷ rest))
            (tables_of s)
          ≡ some final
    unfolding new_events project_all
    round-new_events later = elim (Bool-cases (known_in k s message.event)) [
      | inl held ↦
          let left = handle_value-LeftAlone k now n (some message) s (well.0, held) in
          let same_known : known_in k (handle_value k now n (some message) s).1 ≡ known_in k s =
            fun_ext (λ d. ap is_some (left.redis_same (processed_key d))) in
          let same =
            ap₂
              (λ (known : Event F → Bool) (t : Tables N).
                project_all k.numeric (new_events known rest) t)
              same_known (ap k.postgres.tables left.postgres_same) in
          rw held (sym same ∙ later)
      | inr new ↦
          let (projected, marked) = handle_value-Projected now n message s well new in
          let same =
            ap
              (λ (known : Event F → Bool).
                project_all k.numeric (new_events known rest)
                  (tables_of (handle_value k now n (some message) s).1))
              (fun_ext marked) in
          rw (new, projected) (sym same ∙ later)
    ]

  -- In a run of the consumer's loop every record has an event with an id, each round returns,
  -- and its event was held as processed before or the round's `try` block returns. Then the
  -- tables are those of projecting, once each and in the order of the records, the events that
  -- Redis did not hold as processed before the run, each the first time that its id comes, at
  -- the clock reading of that round.
  pub consume-new_events :
      (n : ℕ) (records : List (ℕ × KafkaRecord F)) (s : Stage k)
      → AllGoWell k n records s
      → project_all k.numeric (new_events (known_in k s) (events_in records)) (tables_of s)
        ≡ some (tables_of (consume k n records s).1)
  unfolding consume new_events project_all
  consume-new_events n [] s h = refl
  consume-new_events n ((now, rec) ∷ rest) s (well, all) = elim (Option-cases rec.value) [
    | inl garbled ↦ absurd (rw garbled at well)
    | inr (message, decoded) ↦
        let well' : GoesWell k now (suc n) (some message) s = rw decoded at well in
        let after = (handle_value k now (suc n) (some message) s).1 in
        let all' : AllGoWell k (suc n) rest after = rw decoded at all in
        rw (decoded, GoesWell-returns k now (suc n) (some message) s well')
          (round-new_events now (suc n) message (events_in rest) s well'
            (tables_of (consume k (suc n) rest after).1)
            (consume-new_events (suc n) rest after all'))
  ]
