-- ===== src/Consumer/Marks.antt =====
-- The mark that the loop of consumers/main.py leaves in Redis for an event that it has processed,
-- and that nothing which the loop does takes away.
use Prim.Native.Char.{code}
use text.Mathlib.TextLemmas.{cons-append, head-eq_of_cons-eq}
use event_sourcing_cqrs.Prelude.{
  ℕ, suc, String, ◌≡◌, ◌≢◌, refl, sym, ap, ◌∙◌, inl, inr, Option, none, some, Bool, true, false,
  List, [], ◌∷◌, arith, str_eq, eq_iff, Bool-cases,
}
use event_sourcing_cqrs.Events.{Event, event_type}
use event_sourcing_cqrs.Exec.{Result, ok, err, Result-cases, ◌>>◌}
use event_sourcing_cqrs.Exec.Chain.{bind-cases, bind-ensures, bind-preserves}
use event_sourcing_cqrs.Services.Redis.{Redis, is_some}
use event_sourcing_cqrs.Publisher.{Message, KafkaRecord}
use event_sourcing_cqrs.Consumer.{
  Sinks, Stage, on_postgres, has_id, is_terminal, processed_key, order_key, send_to_dlq,
  project_to_postgres, invalidate_cache, commit, expire_if_terminal, mark_processed, try_project,
  on_failure, project_message, unless_processed, already_processed, handle_value, handle_record,
  consume,
}

pub processed_key≢order_key :
    {F : Type 0} (e : Event F) (oid : String) → processed_key e ≢ order_key oid
unfolding processed_key order_key
processed_key≢order_key e oid h =
    let heads =
      head-eq_of_cons-eq
        (sym (cons-append "p" "rocessed:" e.event_id) ∙ h ∙ cons-append "o" "rder:" oid) in
    let codes : code "p" ≡ code "o" = ap code heads in omega (arith, codes)

module _ (redis : Redis) where
  -- A key that holds a text holds one after a `setex`, of any key, however it ends.
  setex-is_some :
      (key j : String) (seconds : ℕ) (v : String) (s : redis.State)
      → is_some (redis.lookup j s) ≡ true
      → is_some (redis.lookup j (redis.setex key seconds v s).1) ≡ true
  setex-is_some key j seconds v s held = elim (Bool-cases (str_eq key j)) [
    | inr apart ↦
        let others =
          redis.setex_others key seconds v j s λ same. ground (arith, apart, eq_iff key j) in
        rw others held
    | inl same ↦ rw (← (eq_iff key j).0 same) (elim (Result-cases (redis.setex key seconds v s).0) [
      | inl (_, done) ↦ rw (redis.setex_returns key seconds v s done) refl
      | inr (e, failed) ↦ elim (redis.setex_raises key seconds v s e failed) [
        | inl kept ↦ rw kept (rw (← (eq_iff key j).0 same) at held)
        | inr written ↦ rw written refl
      ]
    ])
  ]

module _ {F N : Type 0} (k : Sinks F N) where
  -- Redis holds the event as processed.
  abbrev pub IsMarked : Event F → Stage k → Type 0
  IsMarked e s = is_some (k.redis.lookup (processed_key e) s.redis) ≡ true

  module _ (own : Event F) where
    mark_processed-IsMarked :
        (e : Event F) (s : Stage k) → IsMarked own s → IsMarked own (mark_processed k e s).1
    mark_processed-IsMarked e s h = elim (Bool-cases (has_id e)) [
      | inl has ↦ rw has (setex-is_some k.redis _ _ 86400 "1" s.redis h)
      | inr hasnt ↦ rw hasnt h
    ]

    expire_if_terminal-IsMarked :
        (now : ℕ) (e : Event F) (s : Stage k)
        → IsMarked own s
        → IsMarked own (expire_if_terminal k now e s).1
    expire_if_terminal-IsMarked now e s h = elim (Bool-cases (is_terminal (event_type e))) [
      | inl last ↦ rw last h
      | inr goes_on ↦ rw goes_on h
    ]

    invalidate_cache-IsMarked :
        (oid : String) (s : Stage k) → IsMarked own s → IsMarked own (invalidate_cache k oid s).1
    unfolding invalidate_cache
    invalidate_cache-IsMarked oid s h =
        let kept =
          k.redis.delete_others (order_key oid) (processed_key own) s.redis
            (λ same. processed_key≢order_key own oid (sym same)) in
        rw kept h

    try_project-IsMarked :
        (now n : ℕ) (e : Event F) (s : Stage k)
        → IsMarked own s
        → IsMarked own (try_project k now n e s).1
    unfolding try_project
    try_project-IsMarked now n e =
        let P = IsMarked own in
        bind-preserves P (on_postgres (project_to_postgres k now e)) _ (λ s h. h)
          (λ _.
            bind-preserves P (invalidate_cache k e.aggregate_id) _
              (invalidate_cache-IsMarked e.aggregate_id)
              (λ _. bind-preserves P (mark_processed k e) _ (mark_processed-IsMarked e) (λ _.
                bind-preserves P (expire_if_terminal k now e) _ (expire_if_terminal-IsMarked now e)
                  (λ _ s h. h))))

    on_failure-IsMarked :
        (n : ℕ) (message : Message F) (r : Result (Unit {0})) (s : Stage k)
        → IsMarked own s
        → IsMarked own (on_failure k n message r s).1
    unfolding send_to_dlq
    on_failure-IsMarked n message (ok _) s h = h
    on_failure-IsMarked n message (err error) s h = h

    project_message-IsMarked :
        (now n : ℕ) (message : Message F) (s : Stage k)
        → IsMarked own s
        → IsMarked own (project_message k now n message s).1
    unfolding project_message
    project_message-IsMarked now n message s h =
        on_failure-IsMarked n message (try_project k now n message.event s).0 _
          (try_project-IsMarked now n message.event s h)

    unless_processed-IsMarked :
        (now n : ℕ) (message : Message F) (already : Bool) (s : Stage k)
        → IsMarked own s
        → IsMarked own (unless_processed k now n message already s).1
    unless_processed-IsMarked now n message true s h = h
    unless_processed-IsMarked now n message false s h = project_message-IsMarked now n message s h

    already_processed-IsMarked :
        (e : Event F) (s : Stage k) → IsMarked own s → IsMarked own (already_processed k e s).1
    already_processed-IsMarked e s h = elim (Bool-cases (has_id e)) [
      | inl has ↦
          let kept = k.redis.exists_keeps (processed_key e) (processed_key own) s.redis in
          rw (has, kept) h
      | inr hasnt ↦ rw hasnt h
    ]

    pub handle_value-IsMarked :
        (now n : ℕ) (v : Option (Message F)) (s : Stage k)
        → IsMarked own s
        → IsMarked own (handle_value k now n v s).1
    unfolding handle_value
    handle_value-IsMarked now n none s h = h
    handle_value-IsMarked now n (some message) s h =
        bind-preserves (IsMarked own) (already_processed k message.event) _
          (already_processed-IsMarked message.event) (unless_processed-IsMarked now n message) s h

    -- What is marked as processed when the loop starts is marked when it ends, however it ends.
    pub consume-IsMarked :
        (n : ℕ) (records : List (ℕ × KafkaRecord F)) (s : Stage k)
        → IsMarked own s
        → IsMarked own (consume k n records s).1
    unfolding consume
    consume-IsMarked n [] s h = h
    consume-IsMarked n ((now, rec) ∷ rest) s h =
        bind-preserves (IsMarked own) (handle_record k now (suc n) rec)
          (λ _. consume k (suc n) rest) (handle_value-IsMarked now (suc n) rec.value)
          (λ _. consume-IsMarked (suc n) rest) s h

  mark_processed-marks :
      (e : Event F) (s : Stage k)
      → has_id e ≡ true
      → (mark_processed k e s).0 ≡ ok tt
      → IsMarked e (mark_processed k e s).1
  mark_processed-marks e s has h =
      rw has (ap is_some (k.redis.setex_returns (processed_key e) 86400 "1" s.redis (rw has at h)))

  IsMarked-then_expired :
      (now n : ℕ) (e : Event F) (s : Stage k)
      → has_id e ≡ true
      → ((mark_processed k e >> (expire_if_terminal k now e >> commit k n)) s).0 ≡ ok tt
      → IsMarked e ((mark_processed k e >> (expire_if_terminal k now e >> commit k n)) s).1
  IsMarked-then_expired now n e s has h =
      let rest = expire_if_terminal k now e >> commit k n in
      elim (bind-cases (mark_processed k e) (λ _. rest) s) [
        | inr (_, _, same) ↦ ground (arith, same, h)
        | inl (_, done, same) ↦ rw same (
            bind-preserves (IsMarked e) (expire_if_terminal k now e) (λ _. commit k n)
              (expire_if_terminal-IsMarked e now e) (λ _ t held. held) _
              (mark_processed-marks e s has done))
      ]

  -- A `try` block that returns has marked its event, if that has an id.
  pub try_project-marks :
      (now n : ℕ) (e : Event F) (s : Stage k)
      → has_id e ≡ true
      → (try_project k now n e s).0 ≡ ok tt
      → IsMarked e (try_project k now n e s).1
  unfolding try_project
  try_project-marks now n e s has =
      bind-ensures (on_postgres (project_to_postgres k now e)) _ s (IsMarked e) tt (λ _ s₁.
        bind-ensures (invalidate_cache k e.aggregate_id) _ s₁ (IsMarked e) tt
          (λ _ s₂. IsMarked-then_expired now n e s₂ has))
