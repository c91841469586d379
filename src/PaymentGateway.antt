-- ===== src/PaymentGateway.antt =====
-- api/services/payment_gateway.py: the mock of a payment provider that the repository ships.
use Prim.Native.String.{◌++◌}
use event_sourcing_cqrs.Prelude.{String, starts_with, if◌then◌else◌}

pub data ChargeResult : Type 0 where
  success : (transaction_ref : String) → ChargeResult
  failure : (error : String) → ChargeResult

unfoldable pub charge :
    {F : Type 0} (payment_id : String) (amount : F) (method : String) → ChargeResult
charge payment_id amount method =
    if starts_with payment_id "fail_"
    then failure "Payment declined by bank"
    else success ("TXN_" ++ payment_id)
