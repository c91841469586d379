-- ===== src/Consumer/Constraints.antt =====
-- The read model's constraints and totals over the whole loop of consumers/main.py.
use event_sourcing_cqrs.Prelude.{
  ℕ, suc, ◌≡◌, inl, inr, some, none, Option, List, [], ◌∷◌, Bool, true, false, Bool-cases,
}
use event_sourcing_cqrs.Exec.{Result-cases}
use event_sourcing_cqrs.Exec.Chain.{bind-cases}
use event_sourcing_cqrs.Projection.Validity.{IsWellFormed, project-IsWellFormed}
use event_sourcing_cqrs.Publisher.{Message, KafkaRecord}
use event_sourcing_cqrs.Consumer.{
  Sinks, Stage, has_id, processed_key, send_to_dlq, try_project, project_message,
  project_to_postgres, unless_processed, handle_value, handle_record, consume,
}
use event_sourcing_cqrs.Consumer.Attempts.{project_to_postgres-AtMostOnce}
use event_sourcing_cqrs.Consumer.Try.{try_project-postgres}

module _ {F N : Type 0} (k : Sinks F N) where
  abbrev KeepsConstraints : Stage k → Type 0
  KeepsConstraints s = IsWellFormed k.numeric (k.postgres.tables s.postgres)

  project_message-postgres :
      (now n : ℕ) (message : Message F) (s : Stage k)
      → (project_message k now n message s).1.postgres
        ≡ (project_to_postgres k now message.event s.postgres).1
  unfolding project_message send_to_dlq
  project_message-postgres now n message s =
      let post = try_project-postgres k now n message.event s in
      elim (Result-cases (try_project k now n message.event s).0) [
        | inl (_, done) ↦ rw done post
        | inr (error, failed) ↦ rw failed post
      ]

  project_message-IsWellFormed :
      (now n : ℕ) (message : Message F) (s : Stage k)
      → KeepsConstraints s
      → KeepsConstraints (project_message k now n message s).1
  project_message-IsWellFormed now n message s wf =
      rw (project_message-postgres now n message s)
        (elim (project_to_postgres-AtMostOnce k now message.event s.postgres) [
          | inl same ↦ rw same wf
          | inr once ↦ project-IsWellFormed k.numeric now message.event _ _ wf once
        ])

  unless_processed-IsWellFormed :
      (now n : ℕ) (message : Message F) (already : Bool) (s : Stage k)
      → KeepsConstraints s
      → KeepsConstraints (unless_processed k now n message already s).1
  unless_processed-IsWellFormed now n message true s wf = wf
  unless_processed-IsWellFormed now n message false s wf =
      project_message-IsWellFormed now n message s wf

  handle_value-IsWellFormed :
      (now n : ℕ) (value : Option (Message F)) (s : Stage k)
      → KeepsConstraints s
      → KeepsConstraints (handle_value k now n value s).1
  unfolding handle_value
  handle_value-IsWellFormed now n none s wf = wf
  handle_value-IsWellFormed now n (some message) s wf = elim (Bool-cases (has_id message.event)) [
    | inr without_id ↦ rw without_id (project_message-IsWellFormed now n message s wf)
    | inl with_id ↦ elim (Result-cases (k.redis.exists (processed_key message.event) s.redis).0) [
      | inr (_, failed) ↦ rw (with_id, failed) wf
      | inl (already, looked) ↦
          rw (with_id, looked) (unless_processed-IsWellFormed now n message already _ wf)
    ]
  ]

  -- Where the tables keep the keys of their schema, and every order's total is the sum of its
  -- lines, this is so after the consumer's loop over any records, however it ends.
  pub consume-IsWellFormed :
      (n : ℕ) (records : List (ℕ × KafkaRecord F)) (s : Stage k)
      → IsWellFormed k.numeric (k.postgres.tables s.postgres)
      → IsWellFormed k.numeric (k.postgres.tables (consume k n records s).1.postgres)
  unfolding consume
  consume-IsWellFormed n [] s wf = wf
  consume-IsWellFormed n ((now, rec) ∷ rest) s wf =
      let next = handle_value-IsWellFormed now (suc n) rec.value s wf in
      elim (bind-cases (handle_record k now (suc n) rec) (λ _. consume k (suc n) rest) s) [
        | inl (_, _, goes_on) ↦ rw goes_on (consume-IsWellFormed (suc n) rest _ next)
        | inr (_, _, ends) ↦ rw ends next
      ]
