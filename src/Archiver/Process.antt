-- ===== src/Archiver/Process.antt =====
-- The whole of `archive` in consumers/archiver.py: the bucket, the Kafka consumer, the loop, and its
-- `finally`.
use event_sourcing_cqrs.Prelude.{
  ℕ, ◌+◌, ◌≤◌, ◌≡◌, refl, ◌⊎◌, inl, inr, false, String, List, [], ◌++◌, map, length,
}
use event_sourcing_cqrs.Exec.{Exec, Error, Result, ok, err, Result-cases, ◌>>◌}
use event_sourcing_cqrs.Exec.Finally.{try_finally}
use event_sourcing_cqrs.Services.Connections.{Connections, kafka_consumer}
use event_sourcing_cqrs.Services.Buckets.{Buckets}
use event_sourcing_cqrs.Archiver.{Archive, Run, archive_all, shutdown}
use event_sourcing_cqrs.Archiver.Bucket.{Ensured, ensure_bucket, ensure_bucket-Ensured}
use event_sourcing_cqrs.Archiver.Safety.{AllArchived, objects_of, committed_of}
use event_sourcing_cqrs.Archiver.Shutdown.{shutdown-archived}

-- The servers, the account with its buckets, and the Kafka consumer.
pub record Process {E : Type 0} (a : Archive E) (s3 : Buckets) (h : Connections) : Type 0 where
  pub run : Run a
  pub buckets : s3.State
  pub connections : h.State

module _ {E : Type 0} (a : Archive E) (s3 : Buckets) (h : Connections) where
  abbrev on_run : Exec (Run a) (Unit {0}) → Exec (Process a s3 h) (Unit {0})
  on_run m p = let (r, s) = m p.run in (r, record p { run = s })

  abbrev on_buckets : Exec s3.State (Unit {0}) → Exec (Process a s3 h) (Unit {0})
  on_buckets m p = let (r, s) = m p.buckets in (r, record p { buckets = s })

  abbrev on_connections : Exec h.State (Unit {0}) → Exec (Process a s3 h) (Unit {0})
  on_connections m p = let (r, s) = m p.connections in (r, record p { connections = s })

  -- The variables of the loop at its start.
  abbrev pub fresh : Run a → Run a
  fresh r = record r { batch = []; last_offset = 0 }

  -- The loop, from the records at an offset on.
  abbrev loop : ℕ → List (ℕ × E) → Exec (Run a) (Unit {0})
  loop offset timed r = (ok tt, archive_all a offset timed (fresh r))

  -- The first part of the `finally` swallows the exceptions of its calls.
  abbrev flush_rest : ℕ → Exec (Run a) (Unit {0})
  flush_rest now r = (ok tt, shutdown a now r)

  -- From the loop on. The last part of the `finally` is `consumer.stop()`.
  unfoldable pub archive_and_stop : ℕ → ℕ → List (ℕ × E) → Exec (Process a s3 h) (Unit {0})
  archive_and_stop now offset timed =
      try_finally (on_run (loop offset timed))
        (on_run (flush_rest now) >> on_connections (h.close kafka_consumer))

  -- `archive`, which stops at the clock reading `now`.
  unfoldable pub archive : String → ℕ → ℕ → List (ℕ × E) → Exec (Process a s3 h) (Unit {0})
  archive bucket now offset timed = do
    on_buckets (ensure_bucket s3 bucket)
    on_connections (h.connect kafka_consumer)
    archive_and_stop now offset timed

  -- Each event of a first part is in a batch in the bucket, and the committed position is not past
  -- that part.
  abbrev pub Archived : ℕ → List E → Run a → Type 0
  Archived offset events r =
      (safe : List E) × (rest : List E) × (events ≡ safe ++ rest)
      × AllArchived (objects_of a r) safe
      × (committed_of a r ≤ offset + length safe)

  module _ (bucket : String) (now offset : ℕ) (timed : List (ℕ × E)) (p : Process a s3 h) where
    -- How the process ends.
    pub data Stopped : Result (Unit {0}) → Process a s3 h → Type 0 where
      -- the Kafka consumer could not be started, and no record was taken
      not_started : {p' : Process a s3 h} (e : Error) → p'.run ≡ p.run → Stopped (err e) p'
      -- the consumer is stopped
      stopped :
          {p' : Process a s3 h}
          → Archived offset (map (λ q. q.1) timed) p'.run
          → h.is_open kafka_consumer p'.connections ≡ false
          → Stopped (ok tt) p'
      -- the consumer could not be stopped
      not_stopped :
          {p' : Process a s3 h} (e : Error)
          → Archived offset (map (λ q. q.1) timed) p'.run
          → Stopped (err e) p'

    archive_and_stop-Stopped :
        committed_of a p.run ≤ offset
        → (b : s3.State) (c : h.State)
        → Stopped
            (archive_and_stop now offset timed (record p { buckets = b; connections = c })).0
            (archive_and_stop now offset timed (record p { buckets = b; connections = c })).1
    unfolding archive_and_stop
    archive_and_stop-Stopped before b c =
        let kept = shutdown-archived a offset now timed (fresh p.run) refl before in
        elim (Result-cases (h.close kafka_consumer c).0) [
          | inl (_, done) ↦ rw done (stopped kept (h.close_returns kafka_consumer c done))
          | inr (e, failed) ↦ rw failed (not_stopped e kept)
        ]

    archive_and_stop-buckets :
        (q : Process a s3 h) → (archive_and_stop now offset timed q).1.buckets ≡ q.buckets
    unfolding archive_and_stop
    archive_and_stop-buckets q = refl

    pub archive-Stopped :
        committed_of a p.run ≤ offset
        → Ensured s3 bucket p.buckets (archive bucket now offset timed p).1.buckets
          × Stopped (archive bucket now offset timed p).0 (archive bucket now offset timed p).1
    unfolding archive
    archive-Stopped before =
        let (ensured, there) = ensure_bucket-Ensured s3 bucket p.buckets in
        elim (Result-cases (h.connect kafka_consumer p.connections).0) [
          | inr (e, failed) ↦ rw (ensured, failed) (there, not_started e refl)
          | inl (_, connected) ↦
              rw (ensured, connected)
                (
                  rw (archive_and_stop-buckets _) there,
                  archive_and_stop-Stopped before (ensure_bucket s3 bucket p.buckets).1
                      (h.connect kafka_consumer p.connections).1,
                )
        ]

    -- What `archive` leaves of the run: what was there, or what the loop and the `finally` make of a
    -- fresh one.
    pub archive-run :
        ((archive bucket now offset timed p).1.run ≡ p.run)
        ⊎ ((archive bucket now offset timed p).1.run
            ≡ shutdown a now (archive_all a offset timed (fresh p.run)))
    unfolding archive archive_and_stop
    archive-run =
        let (ensured, _) = ensure_bucket-Ensured s3 bucket p.buckets in
        elim (Result-cases (h.connect kafka_consumer p.connections).0) [
          | inr (_, failed) ↦ rw (ensured, failed) (inl refl)
          | inl (_, connected) ↦ rw (ensured, connected) (inr refl)
        ]
