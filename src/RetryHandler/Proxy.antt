-- ===== src/RetryHandler/Proxy.antt =====
-- What `publish_to_kafka_via_proxy` of lambda_handlers/retry_handler.py writes to the topic.
use event_sourcing_cqrs.Prelude.{
  ℕ, ◌≡◌, refl, ◌⊎◌, inl, inr, [], ◌∷◌, ◌++◌, arith, Bool-cases, none, true,
}
use event_sourcing_cqrs.Exec.{ok, Result-cases}
use event_sourcing_cqrs.Services.RestProxy.{RestProxy, Answer, is_accepted}
use event_sourcing_cqrs.RetryHandler.{check_status, publish_to_kafka_via_proxy}

module _ {M : Type 0} (proxy : RestProxy M) where
  check_status-keeps : (status : ℕ) (s : proxy.State) → (check_status proxy status s).1 ≡ s
  check_status-keeps status s = ground arith

  -- However it ends, it writes the record or nothing.
  pub publish_to_kafka_via_proxy_writes :
      (m : M) (s : proxy.State)
      → (proxy.log (publish_to_kafka_via_proxy proxy m s).1 ≡ proxy.log s)
        ⊎ (proxy.log (publish_to_kafka_via_proxy proxy m s).1 ≡ proxy.log s ++ m ∷ [])
  unfolding publish_to_kafka_via_proxy
  publish_to_kafka_via_proxy_writes m s = elim (Result-cases (proxy.post m s).0) [
    | inl (answer, done) ↦ rw done (rw (check_status-keeps answer.status) (proxy.post_writes m s))
    | inr (_, failed) ↦ rw failed (proxy.post_writes m s)
  ]

  -- The proxy reports no error code for the record when it accepts the request.
  abbrev pub ReportsNone : M → Type 0
  ReportsNone m =
      (s : proxy.State) (answer : Answer)
      → (proxy.post m s).0 ≡ ok answer
      → is_accepted answer.status ≡ true
      → answer.error_code ≡ none

  -- Where the proxy reports no error code, a call that returns has written the record.
  pub publish_to_kafka_via_proxy_returns :
      (m : M) (s : proxy.State)
      → ReportsNone m
      → (publish_to_kafka_via_proxy proxy m s).0 ≡ ok tt
      → proxy.log (publish_to_kafka_via_proxy proxy m s).1 ≡ proxy.log s ++ m ∷ []
  unfolding publish_to_kafka_via_proxy
  publish_to_kafka_via_proxy_returns m s clean h = elim (Result-cases (proxy.post m s).0) [
    | inr (_, failed) ↦ ground (arith, failed, h)
    | inl (answer, done) ↦ elim (Bool-cases (is_accepted answer.status)) [
      | inl accepted ↦
          rw (done, accepted)
            (proxy.post_accepts m s answer done accepted (clean s answer done accepted))
      | inr refused ↦ ground (arith, done, refused, h)
    ]
  ]

  -- An accepted request without an error code makes the call return with the record written.
  pub publish_to_kafka_via_proxy_accepted :
      (m : M) (s : proxy.State) (answer : Answer)
      → (proxy.post m s).0 ≡ ok answer
      → is_accepted answer.status ≡ true
      → answer.error_code ≡ none
      → ((publish_to_kafka_via_proxy proxy m s).0 ≡ ok tt)
        × (proxy.log (publish_to_kafka_via_proxy proxy m s).1 ≡ proxy.log s ++ m ∷ [])
  unfolding publish_to_kafka_via_proxy
  publish_to_kafka_via_proxy_accepted m s answer done accepted clean =
      rw (done, accepted) (refl, proxy.post_accepts m s answer done accepted clean)
