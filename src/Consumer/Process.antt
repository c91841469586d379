-- ===== src/Consumer/Process.antt =====
-- The whole of `consume` in consumers/main.py: what it opens, the loop, and its `finally`.
use event_sourcing_cqrs.Prelude.{ℕ, inl, inr, true, false, List, [], ◌∷◌, Memᴰ}
use event_sourcing_cqrs.Exec.{Exec, Error, Result, err, ◌>>◌}
use event_sourcing_cqrs.Exec.Finally.{try_finally}
use event_sourcing_cqrs.Services.Connections.{
  Connections, Client, kafka_consumer, redis, postgres, mongo, AllAre, GaveUp, connect_all,
  close_all, connect_all-cases, close_all-cases,
}
use event_sourcing_cqrs.Publisher.{KafkaRecord}
use event_sourcing_cqrs.Consumer.{Sinks, Stage, consume}

-- The servers, and the clients by which the process reaches them.
pub record Process {F N : Type 0} (k : Sinks F N) (h : Connections) : Type 0 where
  pub stage : Stage k
  pub connections : h.State

-- In the order in which they are opened, and in the order of the `finally`.
abbrev pub opened_clients : List Client
opened_clients = postgres ∷ redis ∷ mongo ∷ kafka_consumer ∷ []

abbrev pub closed_clients : List Client
closed_clients = kafka_consumer ∷ postgres ∷ redis ∷ mongo ∷ []

module _ {F N : Type 0} (k : Sinks F N) (h : Connections) where
  abbrev pub on_stage : Exec (Stage k) (Unit {0}) → Exec (Process k h) (Unit {0})
  on_stage m p = let (r, s) = m p.stage in (r, record p { stage = s })

  abbrev pub on_connections : Exec h.State (Unit {0}) → Exec (Process k h) (Unit {0})
  on_connections m p = let (r, s) = m p.connections in (r, record p { connections = s })

  -- The loop, and the `finally` that closes what was opened.
  unfoldable pub consume_and_close : ℕ → List (ℕ × KafkaRecord F) → Exec (Process k h) (Unit {0})
  consume_and_close n records =
      try_finally (on_stage (consume k n records)) (on_connections (close_all h closed_clients))

  -- `consume`, given the records that follow the `n`-th.
  unfoldable pub run_consumer : ℕ → List (ℕ × KafkaRecord F) → Exec (Process k h) (Unit {0})
  run_consumer n records =
      on_connections (connect_all h opened_clients) >> consume_and_close n records

  -- What was opened is closed in the end.
  opened-closed : (c : Client) → Memᴰ c opened_clients → Memᴰ c closed_clients
  opened-closed c (Memᴰ.head e) = Memᴰ.tail (Memᴰ.head e)
  opened-closed c (Memᴰ.tail (Memᴰ.head e)) = Memᴰ.tail (Memᴰ.tail (Memᴰ.head e))
  opened-closed c (Memᴰ.tail (Memᴰ.tail (Memᴰ.head e))) =
      Memᴰ.tail (Memᴰ.tail (Memᴰ.tail (Memᴰ.head e)))
  opened-closed c (Memᴰ.tail (Memᴰ.tail (Memᴰ.tail m))) = elim m [
    | Memᴰ.head e ↦ Memᴰ.head e
    | Memᴰ.tail rest ↦ elim rest [ ]
  ]

  module _ (n : ℕ) (records : List (ℕ × KafkaRecord F)) (p : Process k h) where
    -- How the process ends.
    pub data Stopped : Result (Unit {0}) → Process k h → Type 0 where
      -- a client could not be opened: no record was handled, and nothing was closed
      not_started :
          {opened : h.State} (e : Error)
          → GaveUp h h.connect true opened_clients p.connections e opened
          → Stopped (err e) (record p { connections = opened })
      -- the loop ended, and what was opened is closed
      closed :
          {c : h.State}
          → AllAre h false opened_clients c
          → Stopped
              (consume k n records p.stage).0
              (record { stage = (consume k n records p.stage).1; connections = c })
      -- the loop ended, and a client that was opened could not be closed
      not_closed :
          {opened c : h.State} (e : Error)
          → AllAre h true opened_clients opened
          → GaveUp h h.close false closed_clients opened e c
          → Stopped (err e) (record { stage = (consume k n records p.stage).1; connections = c })

    consume_and_close-Stopped :
        (c : h.State)
        → AllAre h true opened_clients c
        → Stopped
            (consume_and_close n records (record p { connections = c })).0
            (consume_and_close n records (record p { connections = c })).1
    unfolding consume_and_close
    consume_and_close-Stopped c opened = elim (close_all-cases h closed_clients c) [
      | inl (done, all) ↦ rw done (closed (λ client m. all client (opened-closed client m)))
      | inr (e, failed, g) ↦ rw failed (not_closed e opened g)
    ]

    -- The consumer's process ends in one of three ways. The connection of a client raises,
    -- which is the last call: the services are as before, and the clients before it are open.
    -- Or all clients were opened, the loop ran, however it ended, its `finally` closed all
    -- four, and the process ends as the loop did. Or all were opened, the loop ran, and in the
    -- `finally` the close of a client raised, which was the last call. In both cases the
    -- services are as the loop left them.
    pub run_consumer-Stopped : Stopped (run_consumer n records p).0 (run_consumer n records p).1
    unfolding run_consumer
    run_consumer-Stopped = elim (connect_all-cases h opened_clients p.connections) [
      | inr (e, failed, g) ↦ rw failed (not_started e g)
      | inl (connected, opened) ↦ rw connected (consume_and_close-Stopped _ opened)
    ]
