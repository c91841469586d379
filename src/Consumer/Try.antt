-- ===== src/Consumer/Try.antt =====
-- The `try` block of the loop of consumers/main.py: its state and its commit.
use event_sourcing_cqrs.Prelude.{ℕ, ◌≡◌, refl, ap, ◌∙◌, inl, inr, arith, Bool-cases}
use event_sourcing_cqrs.Events.{Event, event_type}
use event_sourcing_cqrs.Exec.{Exec, ok, ◌>>◌}
use event_sourcing_cqrs.Exec.Chain.{bind-keeps, bind-cases, bind-ensures}
use event_sourcing_cqrs.Consumer.{
  Sinks, Stage, on_postgres, has_id, is_terminal, project_to_postgres, invalidate_cache, commit,
  expire_if_terminal, mark_processed, try_project,
}

module _ {F N : Type 0} (k : Sinks F N) where
  -- What follows the projection in the `try` block.
  abbrev after_projection : ℕ → ℕ → Event F → Exec (Stage k) (Unit {0})
  after_projection now n e = do
    invalidate_cache k e.aggregate_id
    mark_processed k e
    expire_if_terminal k now e
    commit k n

  module _ {X : Type 0} (part : Stage k → X)
      (redis : (s : Stage k) (r : k.redis.State) → part (record s { redis = r }) ≡ part s)
      (mongo : (s : Stage k) (m : k.mongo.State) → part (record s { mongo = m }) ≡ part s)
      (group : (s : Stage k) (g : k.group.State) → part (record s { group = g }) ≡ part s) where
    mark_processed-keeps : (e : Event F) (s : Stage k) → part (mark_processed k e s).1 ≡ part s
    mark_processed-keeps e s = elim (Bool-cases (has_id e)) [
      | inl has ↦ rw has (redis s _)
      | inr hasnt ↦ rw hasnt refl
    ]

    expire_if_terminal-keeps :
        (now : ℕ) (e : Event F) (s : Stage k) → part (expire_if_terminal k now e s).1 ≡ part s
    expire_if_terminal-keeps now e s = elim (Bool-cases (is_terminal (event_type e))) [
      | inl last ↦ rw last (mongo s _)
      | inr goes_on ↦ rw goes_on refl
    ]

    after_projection-keeps :
        (now n : ℕ) (e : Event F) (s : Stage k) → part (after_projection now n e s).1 ≡ part s
    unfolding invalidate_cache
    after_projection-keeps now n e =
        bind-keeps part (invalidate_cache k e.aggregate_id) _ (λ s. redis s _)
          (λ _. bind-keeps part (mark_processed k e) _ (mark_processed-keeps e) (λ _.
            bind-keeps part (expire_if_terminal k now e) (λ _. commit k n)
              (expire_if_terminal-keeps now e) (λ _ s. group s _)))

  after_projection-commits :
      (now n : ℕ) (e : Event F) (s : Stage k)
      → (after_projection now n e s).0 ≡ ok tt
      → k.group.committed (after_projection now n e s).1.group ≡ n
  after_projection-commits now n e s =
      let P = λ (t : Stage k). k.group.committed t.group ≡ n in
      bind-ensures (invalidate_cache k e.aggregate_id) _ s P tt (λ _ s₁.
        bind-ensures (mark_processed k e) _ s₁ P tt (λ _ s₂.
          bind-ensures (expire_if_terminal k now e) (λ _. commit k n) s₂ P tt
            (λ _ s₃. k.group.commit_returns n s₃.group)))

  pub try_project-sqs :
      (now n : ℕ) (e : Event F) (s : Stage k) → (try_project k now n e s).1.sqs ≡ s.sqs
  unfolding try_project
  try_project-sqs now n e s =
      bind-keeps (λ (t : Stage k). t.sqs) (on_postgres (project_to_postgres k now e))
        (λ _. after_projection now n e) (λ t. refl)
        (λ _. after_projection-keeps (λ t. t.sqs) (λ t r. refl) (λ t m. refl) (λ t g. refl) now n e)
        s

  pub try_project-postgres :
      (now n : ℕ) (e : Event F) (s : Stage k)
      → (try_project k now n e s).1.postgres ≡ (project_to_postgres k now e s.postgres).1
  unfolding try_project
  try_project-postgres now n e s =
      elim (bind-cases (on_postgres (project_to_postgres k now e)) (λ _. after_projection now n e)
        s) [
          | inl (_, _, same) ↦
              ap (λ r. r.1.postgres) same
              ∙ after_projection-keeps (λ t. t.postgres) (λ t r. refl) (λ t m. refl) (λ t g. refl)
                  now n e _
          | inr (_, _, same) ↦ ap (λ r. r.1.postgres) same
        ]

  pub try_project_returns :
      (now n : ℕ) (e : Event F) (s : Stage k)
      → (try_project k now n e s).0 ≡ ok tt
      → (project_to_postgres k now e s.postgres).0 ≡ ok tt
  unfolding try_project
  try_project_returns now n e s h =
      elim (bind-cases (on_postgres (project_to_postgres k now e)) (λ _. after_projection now n e)
        s) [ inl (_, done, _) ↦ done | inr (_, _, same) ↦ ground (arith, same, h) ]

  pub try_project-commits :
      (now n : ℕ) (e : Event F) (s : Stage k)
      → (try_project k now n e s).0 ≡ ok tt
      → k.group.committed (try_project k now n e s).1.group ≡ n
  unfolding try_project
  try_project-commits now n e s =
      bind-ensures (on_postgres (project_to_postgres k now e)) (λ _. after_projection now n e) s
        (λ t. k.group.committed t.group ≡ n) tt (λ _. after_projection-commits now n e)
