-- ===== src/Lifespan/Closing.antt =====
-- What is open when the API is up, and after.
use event_sourcing_cqrs.Prelude.{◌≡◌, true, false}
use event_sourcing_cqrs.Exec.{Exec, Error, Result, ok, err}
use event_sourcing_cqrs.Services.Connections.{AllAre, GaveUp}
use event_sourcing_cqrs.EventStore.Indexes.{IsIndexed, CreationRaised, event_indexes}
use event_sourcing_cqrs.Archiver.Bucket.{Ensured}
use event_sourcing_cqrs.Lifespan.{Platform, App, api_clients}

module _ (p : Platform) where
  -- The application is up: its clients are open, the event store has its indexes, and the bucket
  -- was made sure of.
  pub record IsUp (before after : App p) : Type 0 where
    pub opened : AllAre p.connections true api_clients after.connections
    pub indexed : IsIndexed p.events after.events
    pub ensured : Ensured p.s3 p.s3_bucket before.s3 after.s3

  -- The application did not come up. What followed the failing call was not called, and nothing was
  -- closed.
  pub data NotUp (s : App p) (e : Error) (s' : App p) : Type 0 where
    -- a client could not be connected, and those before it are open
    not_connected :
        {opened : p.connections.State}
        → GaveUp p.connections p.connections.connect true api_clients s.connections e opened
        → s' ≡ record s { connections = opened }
        → NotUp s e s'
    -- all clients are open, and an index could not be created
    not_indexed :
        AllAre p.connections true api_clients s'.connections
        → CreationRaised p.events event_indexes s.events e
        → s'.s3 ≡ s.s3
        → NotUp s e s'

  -- How `lifespan` ends.
  pub data Ended (serve : Exec (App p) (Unit {0})) (s : App p)
      : Result (Unit {0}) → App p → Type 0 where
    not_up : {s' : App p} (e : Error) → NotUp s e s' → Ended serve s (err e) s'
    -- the application was up and raised: nothing is closed by `lifespan`
    broken :
        (up : App p) (e : Error)
        → IsUp s up
        → (serve up).0 ≡ err e
        → Ended serve s (err e) (serve up).1
    -- it was up and returned, and a client could not be closed
    not_down :
        {closed : p.connections.State} (up : App p) (e : Error)
        → IsUp s up
        → (serve up).0 ≡ ok tt
        → GaveUp p.connections p.connections.close false api_clients
            (serve up).1.connections
            e
            closed
        → Ended serve s (err e) (record (serve up).1 { connections = closed })
    -- it was up and returned, and all its clients are closed
    down :
        {closed : p.connections.State} (up : App p)
        → IsUp s up
        → (serve up).0 ≡ ok tt
        → AllAre p.connections false api_clients closed
        → Ended serve s (ok tt) (record (serve up).1 { connections = closed })
