-- ===== src/Archiver.antt =====
-- consumers/archiver.py: the consumer that archives the topic in batches.
pub mod Safety
pub mod Loop
pub mod Shutdown
pub mod Bucket
pub mod Process
pub mod Restarts
use event_sourcing_cqrs.Prelude.{
  ℕ, suc, ◌+◌, ◌-◌, String, Option, none, some, List, [], ◌∷◌, ◌++◌, Bool, true, false, leb, length,
  if◌then◌else◌,
}
use event_sourcing_cqrs.Exec.{Exec, Error, Result, ok, err, pure, raise, ◌>>=◌, ◌>>◌}
use event_sourcing_cqrs.Services.ObjectStore.{ObjectStore}
use event_sourcing_cqrs.Services.Offsets.{Offsets}

-- An uploaded batch: the events, one to a line, and the offset of the last.
pub record Batch (E : Type 0) : Type 0 where
  pub events : List E
  pub last_offset : ℕ

-- `settings.snapshot_batch_size`
abbrev pub snapshot_batch_size : ℕ
snapshot_batch_size = 100

-- What the archiver is given. `key_at` is the object's key, from the clock reading and the last
-- offset.
pub record Archive (E : Type 0) : Type 1 where
  pub s3 : ObjectStore (Batch E)
  pub group : Offsets
  pub key_at : (now last_offset : ℕ) → String

-- The state of those services, and the two variables of the loop.
pub record Run {E : Type 0} (a : Archive E) : Type 0 where
  pub s3 : a.s3.State
  pub group : a.group.State
  pub batch : List E
  pub last_offset : ℕ

module _ {E : Type 0} (a : Archive E) where
  abbrev pub on_s3 : {A : Type 0} → Exec a.s3.State A → Exec (Run a) A
  on_s3 m r = let (x, s) = m r.s3 in (x, record r { s3 = s })

  abbrev pub on_group : {A : Type 0} → Exec a.group.State A → Exec (Run a) A
  on_group m r = let (x, s) = m r.group in (x, record r { group = s })

  -- `upload_batch_to_s3`
  unfoldable pub upload_batch_to_s3 : ℕ → List E → ℕ → Exec (Run a) (Unit {0})
  upload_batch_to_s3 now events last_offset = on_s3 (
      a.s3.put_object (a.key_at now last_offset)
        (record { events = events; last_offset = last_offset }))

  abbrev pub clear_batch : Exec (Run a) (Unit {0})
  clear_batch r = (ok tt, record r { batch = [] })

  -- The `try` block: upload, commit the offset, and start a new batch.
  unfoldable pub flush : ℕ → Exec (Run a) (Unit {0})
  flush now r =
      (upload_batch_to_s3 now r.batch r.last_offset
          >> (on_group (a.group.commit (suc r.last_offset)) >> clear_batch))
        r

  -- One record, at its offset. An exception of the `try` block is logged.
  unfoldable pub archive_record : ℕ → ℕ → E → Run a → Run a
  archive_record now offset event r =
      let r' = record r { batch = r.batch ++ event ∷ []; last_offset = offset } in
      if leb snapshot_batch_size (length r'.batch) then (flush now r').1 else r'

  -- The loop over the records from an offset on.
  unfoldable pub archive_all : ℕ → List (ℕ × E) → Run a → Run a
  archive_all offset [] r = r
  archive_all offset ((now, event) ∷ rest) r =
      archive_all (suc offset) rest (archive_record now offset event r)

  -- The `try` block of `finally`: upload and commit.
  pub flush_last : ℕ → Exec (Run a) (Unit {0})
  flush_last now r =
      (upload_batch_to_s3 now r.batch r.last_offset
          >> on_group (a.group.commit (suc r.last_offset)))
        r

  -- `finally`: what is left in the batch is uploaded at shutdown.
  pub shutdown : ℕ → Run a → Run a
  shutdown now r = elim r.batch [ [] ↦ r | _ ∷ _ ↦ (flush_last now r).1 ]
