-- ===== src/Services/Kafka.antt =====
-- A Kafka topic, written through a producer (or the REST proxy) with `acks="all"`. A send that
-- raises may have been written or not.
use event_sourcing_cqrs.Prelude.{◌≡◌, ◌⊎◌, List, [], ◌∷◌, ◌++◌}
use event_sourcing_cqrs.Exec.{Exec, Error, ok, err}

pub record Kafka (M : Type 0) : Type 1 where
  pub State : Type 0
  pub log : State → List M
  pub send : M → Exec State (Unit {0})
  pub send_returns : (m : M) (s : State) → (send m s).0 ≡ ok tt → log (send m s).1 ≡ log s ++ m ∷ []
  pub send_raises :
      (m : M) (s : State) (e : Error)
      → (send m s).0 ≡ err e
      → (log (send m s).1 ≡ log s) ⊎ (log (send m s).1 ≡ log s ++ m ∷ [])
