-- ===== src/Services/Indexes.antt =====
-- The indexes of a MongoDB collection. To create one that is there changes nothing.
use event_sourcing_cqrs.Prelude.{ℕ, String, ◌≡◌, Bool, Option, List, Memᴰ}
use event_sourcing_cqrs.Exec.{Exec, ok}

-- An index with ascending keys.
pub record Index : Type 0 where
  pub keys : List String
  pub unique : Bool
  pub expire_after_seconds : Option ℕ
  pub name : String

pub record Indexes : Type 1 where
  pub State : Type 0
  pub indexes : State → List Index
  pub create_index : Index → Exec State (Unit {0})
  pub create_index_returns :
      (i : Index) (s : State) → (create_index i s).0 ≡ ok tt → Memᴰ i (indexes (create_index i s).1)
  pub create_index_keeps :
      (i j : Index) (s : State) → Memᴰ j (indexes s) → Memᴰ j (indexes (create_index i s).1)
  pub create_index_again :
      (i : Index) (s : State) → Memᴰ i (indexes s) → indexes (create_index i s).1 ≡ indexes s
