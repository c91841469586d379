-- ===== src/Consumer/Known.antt =====
-- Which events the loop of consumers/main.py holds as processed, and what a `try` block adds to them.
use Prim.Native.String.{◌++◌}
use text.Mathlib.TextLemmas.{append_cancel_left}
use event_sourcing_cqrs.Prelude.{
  ℕ, String, ◌≡◌, ◌≢◌, refl, sym, ap, inl, inr, Option, Bool, true, false, ◌||◌, arith, str_eq,
  eq_iff, Bool-cases,
}
use event_sourcing_cqrs.Events.{Event, event_type}
use event_sourcing_cqrs.Exec.{ok}
use event_sourcing_cqrs.Exec.Chain.{bind-keeps}
use event_sourcing_cqrs.Services.Redis.{is_some}
use event_sourcing_cqrs.Consumer.{
  Sinks, Stage, on_postgres, has_id, is_terminal, processed_key, order_key, project_to_postgres,
  invalidate_cache, commit, expire_if_terminal, mark_processed, try_project,
}
use event_sourcing_cqrs.Consumer.Marks.{processed_key≢order_key, try_project-marks}

processed_key-injective :
    {F : Type 0} (d e : Event F) → processed_key d ≡ processed_key e → d.event_id ≡ e.event_id
unfolding processed_key
processed_key-injective d e h = append_cancel_left "processed:" d.event_id e.event_id h

processed_key-same :
    {F : Type 0} (d e : Event F) → d.event_id ≡ e.event_id → processed_key d ≡ processed_key e
unfolding processed_key
processed_key-same d e h = ap (λ (id : String). "processed:" ++ id) h

module _ {F N : Type 0} (k : Sinks F N) where
  -- Redis holds the event as processed.
  abbrev pub known_in : Stage k → Event F → Bool
  known_in s e = is_some (k.redis.lookup (processed_key e) s.redis)

  module _ (own e : Event F) (apart : str_eq own.event_id e.event_id ≡ false) where
    abbrev mark : Stage k → Option String
    mark s = k.redis.lookup (processed_key own) s.redis

    other_key : processed_key e ≢ processed_key own
    other_key same =
        ground
          (arith, apart, eq_iff own.event_id e.event_id, processed_key-injective own e (sym same))

    invalidate_cache-mark :
        (oid : String) (s : Stage k) → mark (invalidate_cache k oid s).1 ≡ mark s
    unfolding invalidate_cache
    invalidate_cache-mark oid s =
        k.redis.delete_others (order_key oid) (processed_key own) s.redis
          (λ same. processed_key≢order_key own oid (sym same))

    mark_processed-mark : (s : Stage k) → mark (mark_processed k e s).1 ≡ mark s
    mark_processed-mark s = elim (Bool-cases (has_id e)) [
      | inl has ↦
          rw has
            (k.redis.setex_others (processed_key e) 86400 "1" (processed_key own) s.redis other_key)
      | inr hasnt ↦ rw hasnt refl
    ]

    expire_if_terminal-mark :
        (now : ℕ) (s : Stage k) → mark (expire_if_terminal k now e s).1 ≡ mark s
    expire_if_terminal-mark now s = elim (Bool-cases (is_terminal (event_type e))) [
      | inl last ↦ rw last refl
      | inr goes_on ↦ rw goes_on refl
    ]

    -- A `try` block leaves the marks of events with other ids alone.
    try_project-mark : (now n : ℕ) (s : Stage k) → mark (try_project k now n e s).1 ≡ mark s
    unfolding try_project
    try_project-mark now n =
        bind-keeps mark (on_postgres (project_to_postgres k now e)) _ (λ s. refl)
          (λ _.
            bind-keeps mark (invalidate_cache k e.aggregate_id) _
              (invalidate_cache-mark e.aggregate_id)
              (λ _. bind-keeps mark (mark_processed k e) _ mark_processed-mark (λ _.
                bind-keeps mark (expire_if_terminal k now e) (λ _. commit k n)
                  (expire_if_terminal-mark now) (λ _ s. refl))))

  -- What is known after a `try` block that returns: its event, and what was known before.
  pub try_project-known :
      (now n : ℕ) (e d : Event F) (s : Stage k)
      → has_id e ≡ true
      → (try_project k now n e s).0 ≡ ok tt
      → known_in (try_project k now n e s).1 d ≡ (str_eq d.event_id e.event_id || known_in s d)
  try_project-known now n e d s has done = elim (Bool-cases (str_eq d.event_id e.event_id)) [
    | inr apart ↦ rw apart (ap is_some (try_project-mark d e apart now n s))
    | inl same ↦
        let key = processed_key-same d e ((eq_iff d.event_id e.event_id).0 same) in
        rw (same, key) (try_project-marks k now n e s has done)
  ]
