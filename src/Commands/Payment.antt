-- ===== src/Commands/Payment.antt =====
-- What `process_payment` does with a payment that the gateway declines.
use event_sourcing_cqrs.Prelude.{
  String, ◌≡◌, ◌≢◌, refl, inl, inr, true, arith, starts_with, Bool-cases,
}
use event_sourcing_cqrs.Events.{Stamp}
use event_sourcing_cqrs.Exec.{ok, Result-cases}
use event_sourcing_cqrs.PaymentGateway.{charge}
use event_sourcing_cqrs.Schemas.{ProcessPaymentRequest, CommandResponse, accepts_payment}
use event_sourcing_cqrs.Aggregate.{assert_can_pay}
use event_sourcing_cqrs.Commands.{Services, World, load_aggregate, process_payment}
use event_sourcing_cqrs.Commands.Legal.{docs_of}
use event_sourcing_cqrs.Commands.Load.{load_aggregate-keeps}

module _ {F : Type 0} (sv : Services F) (stamp : Stamp) (order_id : String) (w : World sv) where
  -- For a payment that the gateway declines, one whose id starts with `fail_`,
  -- `process_payment` stores nothing, changes neither Redis nor the topic, and does not return.
  pub process_payment_declined :
      (req : ProcessPaymentRequest F)
      → starts_with req.payment_id "fail_" ≡ true
      → (docs_of sv (process_payment sv stamp order_id req w).1 ≡ docs_of sv w)
        × ((process_payment sv stamp order_id req w).1.bus ≡ w.bus)
        × ((response : CommandResponse) → (process_payment sv stamp order_id req w).0 ≢ ok response)
  unfolding process_payment charge
  process_payment_declined req declined = elim (Bool-cases (accepts_payment sv.float req)) [
    | inr refused ↦ rw refused (refl, refl, λ response h. ground (arith, h))
    | inl accepted ↦
        let (stored, sent) = load_aggregate-keeps sv order_id w in
        elim (Result-cases (load_aggregate sv order_id w).0) [
          | inr (_, missing) ↦
              rw (accepted, missing) (stored, sent, λ response h. ground (arith, h))
          | inl (agg, loaded) ↦ elim (Result-cases (assert_can_pay agg)) [
            | inr (_, refused) ↦
                rw (accepted, loaded, refused) (stored, sent, λ response h. ground (arith, h))
            | inl (_, passed) ↦
                rw (accepted, loaded, passed, declined)
                  (stored, sent, λ response h. ground (arith, h))
          ]
        ]
  ]
