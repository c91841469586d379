-- ===== src/Services/RestProxy.antt =====
-- The REST proxy before a Kafka topic. `post m` is the request with the one record `m`. Its answer has
-- a status, and for the record an error code if the broker did not take it. An answer of 200, 201 or
-- 202 without an error code means that the record was written. After any other answer, and after an
-- exception, it may have been written or not.
use event_sourcing_cqrs.Prelude.{
  ℕ, ◌≡◌, ◌⊎◌, Bool, true, ◌||◌, ◌==◌, List, [], ◌∷◌, ◌++◌, Option, none,
}
use event_sourcing_cqrs.Exec.{Exec, ok}

abbrev pub is_accepted : ℕ → Bool
is_accepted status = status == 200 || status == 201 || status == 202

pub record Answer : Type 0 where
  pub status : ℕ
  pub error_code : Option ℕ

pub record RestProxy (M : Type 0) : Type 1 where
  pub State : Type 0
  pub log : State → List M
  pub post : M → Exec State Answer
  pub post_accepts :
      (m : M) (s : State) (answer : Answer)
      → (post m s).0 ≡ ok answer
      → is_accepted answer.status ≡ true
      → answer.error_code ≡ none
      → log (post m s).1 ≡ log s ++ m ∷ []
  pub post_writes :
      (m : M) (s : State) → (log (post m s).1 ≡ log s) ⊎ (log (post m s).1 ≡ log s ++ m ∷ [])
