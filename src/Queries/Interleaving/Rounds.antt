-- ===== src/Queries/Interleaving/Rounds.antt =====
-- A round of the consumer's loop in consumers/main.py that nothing interrupts, as steps of the
-- interleaving.
use event_sourcing_cqrs.Prelude.{
  ℕ, zero, suc, Bool, sym, ap, subst, inl, inr, Option, none, some, true, false, List,
}
use event_sourcing_cqrs.Exec.{Exec, ok, err, Result, Result-cases}
use event_sourcing_cqrs.Exec.Chain.{bind-preserves}
use event_sourcing_cqrs.Exec.Retry.{retry, retry-ok, retry-err}
use event_sourcing_cqrs.Services.Queue.{Queue}
use event_sourcing_cqrs.Services.Offsets.{Offsets}
use event_sourcing_cqrs.Events.{Event}
use event_sourcing_cqrs.EventStore.{EventCollection}
use event_sourcing_cqrs.ReadModel.{Tables}
use event_sourcing_cqrs.Projection.{project}
use event_sourcing_cqrs.Publisher.{Message}
use event_sourcing_cqrs.Consumer.{
  DeadLetter, Stage, on_postgres, project_to_postgres, already_processed, invalidate_cache,
  mark_processed, expire_if_terminal, commit, send_to_dlq, try_project, on_failure, project_message,
  unless_processed, handle_value,
}
use event_sourcing_cqrs.Queries.{Readers}
use event_sourcing_cqrs.Queries.Sharing.{
  Shared, Call, look_processed, invalidate, mark, expire, bury, commit_offset, after, attempt,
  consumer_call, sinks, Reach, next,
}

-- What each attempt preserves, all of them do.
retry-preserves :
    {S A : Type 0} (P : S → Type 0) (m : Exec S A)
    → ((s : S) → P s → P (m s).1)
    → (n : ℕ) (s : S) → P s
    → P (retry n m s).1
unfolding retry
retry-preserves P m keeps zero s h = h
retry-preserves P m keeps (suc n) s h = elim (Result-cases (m s).0) [
  | inl (_, done) ↦ subst P (sym (ap (λ x. x.1) (retry-ok n m s _ done))) (keeps s h)
  | inr (_, failed) ↦
      subst P (sym (ap (λ x. x.1) (retry-err n m s _ failed)))
        (retry-preserves P m keeps n (m s).1 (keeps s h))
]

module _ {F N J : Type 0} (r : Readers F N J) (mongo : EventCollection F)
    (sqs : Queue (DeadLetter F)) (group : Offsets) (start sh : Shared r mongo sqs group) where
  -- The consumer has brought the servers to `s` by steps, while the calls of `get_order` rested.
  abbrev pub Brought : Stage (sinks r mongo sqs group) → Type 0
  Brought s =
      (had : List (Tables N)) × Reach r mongo sqs group start (record sh { servers = s; had = had })

  called :
      (c : Call r mongo sqs group) (s : Stage (sinks r mongo sqs group))
      → Brought s
      → Brought (after r mongo sqs group c s)
  called c s (had, reached) = (had, next reached (consumer_call c _))

  projected-Brought :
      (now : ℕ) (e : Event F) (s : Stage (sinks r mongo sqs group))
      → Brought s
      → Brought (on_postgres (project_to_postgres (sinks r mongo sqs group) now e) s).1
  unfolding project_to_postgres
  projected-Brought now e s h =
      retry-preserves (λ p. Brought (record s { postgres = p }))
        (r.postgres.transact (project r.numeric now e))
        (λ p (had, reached). (_, next reached (attempt now e _))) 3 s.postgres h

  try_project-Brought :
      (now n : ℕ) (e : Event F) (s : Stage (sinks r mongo sqs group))
      → Brought s
      → Brought (try_project (sinks r mongo sqs group) now n e s).1
  unfolding try_project
  try_project-Brought now n e =
      let k = sinks r mongo sqs group in
      bind-preserves Brought (on_postgres (project_to_postgres k now e)) _ (projected-Brought now e)
        (λ _.
          bind-preserves Brought (invalidate_cache k e.aggregate_id) _
            (called (invalidate e.aggregate_id))
            (λ _. bind-preserves Brought (mark_processed k e) _ (called (mark e)) (λ _.
              bind-preserves Brought (expire_if_terminal k now e) (λ _. commit k n)
                (called (expire now e)) (λ _. called (commit_offset n)))))

  on_failure-Brought :
      (n : ℕ) (m : Message F) (result : Result (Unit {0})) (s : Stage (sinks r mongo sqs group))
      → Brought s
      → Brought (on_failure (sinks r mongo sqs group) n m result s).1
  on_failure-Brought n m (ok _) s h = h
  on_failure-Brought n m (err error) s h =
      let k = sinks r mongo sqs group in
      bind-preserves Brought (send_to_dlq k m error) (λ _. commit k n) (called (bury m error))
        (λ _. called (commit_offset n)) s h

  unless_processed-Brought :
      (now n : ℕ) (m : Message F) (already : Bool) (s : Stage (sinks r mongo sqs group))
      → Brought s
      → Brought (unless_processed (sinks r mongo sqs group) now n m already s).1
  unfolding project_message
  unless_processed-Brought now n m true s h = called (commit_offset n) s h
  unless_processed-Brought now n m false s h =
      on_failure-Brought n m _ _ (try_project-Brought now n m.event s h)

  -- A round that nothing interrupts goes by the steps of the interleaving, however it ends.
  pub handle_value-Brought :
      (now n : ℕ) (value : Option (Message F)) (s : Stage (sinks r mongo sqs group))
      → Brought s
      → Brought (handle_value (sinks r mongo sqs group) now n value s).1
  unfolding handle_value
  handle_value-Brought now n none s h = h
  handle_value-Brought now n (some m) s h =
      let k = sinks r mongo sqs group in
      bind-preserves Brought (already_processed k m.event) (unless_processed k now n m)
        (called (look_processed m.event)) (unless_processed-Brought now n m) s h
