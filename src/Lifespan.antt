-- ===== src/Lifespan.antt =====
-- api/main.py: what the API opens, sets up and closes around its requests.
pub mod Closing
use event_sourcing_cqrs.Prelude.{String, List, [], ◌∷◌}
use event_sourcing_cqrs.Exec.{Exec, ◌>>◌}
use event_sourcing_cqrs.Services.Connections.{
  Connections, Client, kafka_producer, redis, postgres, mongo, connect_all, close_all,
}
use event_sourcing_cqrs.Services.Indexes.{Indexes}
use event_sourcing_cqrs.Services.Buckets.{Buckets}
use event_sourcing_cqrs.EventStore.Indexes.{setup_indexes}
use event_sourcing_cqrs.Archiver.Bucket.{ensure_bucket}

-- What the application is given.
pub record Platform : Type 1 where
  pub connections : Connections
  pub events : Indexes
  pub s3 : Buckets
  pub s3_bucket : String

-- The state of those services.
pub record App (p : Platform) : Type 0 where
  pub connections : p.connections.State
  pub events : p.events.State
  pub s3 : p.s3.State

-- In the order of the start and of the shutdown.
abbrev pub api_clients : List Client
api_clients = kafka_producer ∷ redis ∷ postgres ∷ mongo ∷ []

module _ (p : Platform) where
  abbrev pub on_connections : Exec p.connections.State (Unit {0}) → Exec (App p) (Unit {0})
  on_connections m a = let (r, s) = m a.connections in (r, record a { connections = s })

  abbrev pub on_events : Exec p.events.State (Unit {0}) → Exec (App p) (Unit {0})
  on_events m a = let (r, s) = m a.events in (r, record a { events = s })

  abbrev pub on_s3 : Exec p.s3.State (Unit {0}) → Exec (App p) (Unit {0})
  on_s3 m a = let (r, s) = m a.s3 in (r, record a { s3 = s })

  -- `lifespan` up to its `yield`. The block on S3 is that of `ensure_bucket` in
  -- consumers/archiver.py.
  unfoldable pub startup : Exec (App p) (Unit {0})
  startup = do
    on_connections (connect_all p.connections api_clients)
    on_events (setup_indexes p.events)
    on_s3 (ensure_bucket p.s3 p.s3_bucket)

  -- From the `yield` on.
  unfoldable pub shut_down : Exec (App p) (Unit {0})
  shut_down = on_connections (close_all p.connections api_clients)

  -- `lifespan` around what the application does while it is up. There is no `finally`: an exception
  -- at the `yield` skips the shutdown.
  unfoldable pub lifespan : Exec (App p) (Unit {0}) → Exec (App p) (Unit {0})
  lifespan serve = do startup; serve; shut_down
