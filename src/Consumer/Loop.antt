-- ===== src/Consumer/Loop.antt =====
-- The loop of consumers/main.py over the records of a partition.
use event_sourcing_cqrs.Prelude.{
  ℕ, suc, ◌+◌, ◌≡◌, inl, inr, some, List, [], ◌∷◌, arith, length, Option-cases,
}
use event_sourcing_cqrs.Exec.{ok}
use event_sourcing_cqrs.Exec.Chain.{bind-cases}
use event_sourcing_cqrs.Publisher.{Message, KafkaRecord}
use event_sourcing_cqrs.Consumer.{Sinks, Stage, handle_value, handle_record, consume}
use event_sourcing_cqrs.Consumer.Rounds.{Handled, handle_value_returns}

module _ {F N : Type 0} (k : Sinks F N) where
  -- Every record was decoded, and its message dealt with, one after another.
  pub data AllHandled : List (ℕ × KafkaRecord F) → Stage k → Stage k → Type 0 where
    finished : (s : Stage k) → AllHandled [] s s
    round :
        (now : ℕ) (rec : KafkaRecord F) (message : Message F) (rest : List (ℕ × KafkaRecord F))
        (s₁ s₂ s₃ : Stage k)
        → rec.value ≡ some message
        → Handled k now message s₁ s₂
        → AllHandled rest s₂ s₃
        → AllHandled ((now, rec) ∷ rest) s₁ s₃

  handle_record_returns :
      (now n : ℕ) (rec : KafkaRecord F) (s : Stage k)
      → (handle_record k now n rec s).0 ≡ ok tt
      → (message : Message F) × (rec.value ≡ some message)
        × (k.group.committed (handle_record k now n rec s).1.group ≡ n)
        × Handled k now message s (handle_record k now n rec s).1
  unfolding handle_value
  handle_record_returns now n rec s h = elim (Option-cases rec.value) [
    | inl garbled ↦ ground (arith, garbled, h)
    | inr (message, decoded) ↦
        let (committed, handled) = handle_value_returns k now n message s (rw decoded at h) in
        (message, decoded, rw decoded committed, rw decoded handled)
  ]

  -- The loop starts after the `n`-th record with that position committed. When it has gone
  -- through the records it is given without an exception, the position after the last of them
  -- is committed, and each of them was decoded and dealt with in turn: its event was held as
  -- processed and the tables are left alone; or the tables are those of one projection of its
  -- event; or its message is on the dead letter queue; or that queue refused it, and the record
  -- is passed over all the same. In the last two cases the tables are as before or those of one
  -- projection.
  pub consume_returns :
      (n : ℕ) (records : List (ℕ × KafkaRecord F)) (s : Stage k)
      → k.group.committed s.group ≡ n
      → (consume k n records s).0 ≡ ok tt
      → (k.group.committed (consume k n records s).1.group ≡ n + length records)
        × AllHandled records s (consume k n records s).1
  unfolding consume
  consume_returns n [] s at_n h = (omega (arith, at_n), finished s)
  consume_returns n ((now, rec) ∷ rest) s at_n h =
      elim (bind-cases (handle_record k now (suc n) rec) (λ _. consume k (suc n) rest) s) [
        | inr (_, _, ends) ↦ ground (arith, ends, h)
        | inl (_, done, goes_on) ↦
            let (message, decoded, committed, handled) =
              handle_record_returns now (suc n) rec s done in
            let (reached, all) =
              consume_returns (suc n) rest (handle_record k now (suc n) rec s).1 committed
                (rw goes_on at h) in
            rw goes_on
              (omega (arith, reached), round now rec message rest s _ _ decoded handled all)
      ]
