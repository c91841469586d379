-- ===== src/Services/Postgres.antt =====
-- A PostgreSQL database, through a pool of connections: `transact f` runs the statements `f` in one
-- transaction. If that raises, it is rolled back, or its commit was lost on the way back. `fetch q`
-- runs one query, `none` for one that the server refuses.
use event_sourcing_cqrs.Prelude.{◌≡◌, ◌⊎◌, Option, some, List, Permᴰ}
use event_sourcing_cqrs.Exec.{Exec, Error, ok, err}

-- The order in which the server comes upon rows, which a statement without ORDER BY leaves open.
pub record Plan : Type 1 where
  pub arrange : {A : Type 0} → List A → List A
  pub arrange-Permᴰ : {A : Type 0} (rows : List A) → Permᴰ (arrange rows) rows

pub record Postgres (T : Type 0) : Type 1 where
  pub State : Type 0
  pub tables : State → T
  -- the plan of the next query
  pub plan : State → Plan
  pub transact : (T → Option T) → Exec State (Unit {0})
  pub fetch : {A : Type 0} → (Plan → T → Option A) → Exec State A
  pub transact_returns :
      (f : T → Option T) (s : State)
      → (transact f s).0 ≡ ok tt
      → f (tables s) ≡ some (tables (transact f s).1)
  pub transact_raises :
      (f : T → Option T) (s : State) (e : Error)
      → (transact f s).0 ≡ err e
      → (tables (transact f s).1 ≡ tables s) ⊎ (f (tables s) ≡ some (tables (transact f s).1))
  pub fetch_returns :
      {A : Type 0} (q : Plan → T → Option A) (s : State) (a : A)
      → (fetch q s).0 ≡ ok a
      → q (plan s) (tables s) ≡ some a
  pub fetch_keeps :
      {A : Type 0} (q : Plan → T → Option A) (s : State) → tables (fetch q s).1 ≡ tables s
