-- ===== src/Archiver/Shutdown.antt =====
-- The archiver's loop with its `finally`.
use event_sourcing_cqrs.Prelude.{
  ℕ, suc, ◌+◌, ◌≤◌, ◌≡◌, refl, sym, ap, ◌⊎◌, inl, inr, List, [], ◌∷◌, ◌++◌, map, arith, length,
  length-append, leb, Bool-cases, subst,
}
use mathlib.Core.List.{append-nil}
use event_sourcing_cqrs.Exec.{Result-cases}
use event_sourcing_cqrs.Archiver.{
  Archive, Run, snapshot_batch_size, upload_batch_to_s3, flush, archive_record, archive_all,
  flush_last, shutdown,
}
use event_sourcing_cqrs.Archiver.Safety.{
  AllArchived, objects_of, committed_of, Inv, upload_keeps, uploaded_all, commit_bound, safe_inside,
}
use event_sourcing_cqrs.Archiver.Loop.{archive_all-Inv, start-Inv}

module _ {E : Type 0} (a : Archive E) where
  length-map : (timed : List (ℕ × E)) → length (map (λ p. p.1) timed) ≡ length timed
  length-map [] = refl
  length-map (p ∷ ps) = ap suc (length-map ps)

  flush-last_offset : (now : ℕ) (r : Run a) → (flush a now r).1.last_offset ≡ r.last_offset
  unfolding flush upload_batch_to_s3
  flush-last_offset now r =
      elim (Result-cases (upload_batch_to_s3 a now r.batch r.last_offset r).0) [
        | inr (_, failed) ↦ rw failed refl
        | inl (_, uploaded) ↦
            rw uploaded (elim (Result-cases (a.group.commit (suc r.last_offset) r.group).0) [
              | inl (_, done) ↦ rw done refl
              | inr (_, lost) ↦ rw lost refl
            ])
      ]

  archive_record-last_offset :
      (now offset : ℕ) (event : E) (r : Run a)
      → (archive_record a now offset event r).last_offset ≡ offset
  unfolding archive_record
  archive_record-last_offset now offset event r =
      elim (Bool-cases (leb snapshot_batch_size (length (r.batch ++ event ∷ [])))) [
        | inl full ↦ rw full (flush-last_offset now _)
        | inr open_still ↦ rw open_still refl
      ]

  -- The batch is empty, or the last offset is that of the last of the `n` records before `offset`.
  abbrev AtEnd : ℕ → Run a → Type 0
  AtEnd offset r = (r.batch ≡ []) ⊎ (suc r.last_offset ≡ offset)

  archive_all-AtEnd :
      (offset : ℕ) (timed : List (ℕ × E)) (r : Run a)
      → AtEnd offset r
      → AtEnd (offset + length timed) (archive_all a offset timed r)
  unfolding archive_all
  archive_all-AtEnd offset [] r inv = subst (λ n. AtEnd n r) (omega arith) inv
  archive_all-AtEnd offset ((now, event) ∷ rest) r inv =
      subst (λ n. AtEnd n (archive_all a (suc offset) rest (archive_record a now offset event r)))
        (omega arith)
        (archive_all-AtEnd (suc offset) rest (archive_record a now offset event r)
          (inr (ap suc (archive_record-last_offset now offset event r))))

  flush_last-Inv :
      (base now : ℕ) (consumed : List E) (r : Run a)
      → Inv a base consumed r
      → suc r.last_offset ≡ base + length consumed
      → Inv a base consumed (flush_last a now r).1
  unfolding flush_last upload_batch_to_s3
  flush_last-Inv base now consumed r inv at_end =
      let bound =
        commit_bound a (suc r.last_offset) base consumed r (length inv.safe) at_end inv.bound
          (safe_inside a base consumed r inv) in
      elim (Result-cases (upload_batch_to_s3 a now r.batch r.last_offset r).0) [
        | inr (_, failed) ↦ rw failed (record {
          closed = inv.closed;
          split = inv.split;
          closed_archived = upload_keeps a now r inv.closed inv.closed_archived;
          safe = inv.safe;
          rest = inv.rest;
          safe_split = inv.safe_split;
          safe_archived = upload_keeps a now r inv.safe inv.safe_archived;
          bound = inv.bound;
        })
        | inl (_, uploaded) ↦ rw uploaded (record {
          closed = inv.closed;
          split = inv.split;
          closed_archived = upload_keeps a now r inv.closed inv.closed_archived;
          safe = consumed;
          rest = [];
          safe_split = sym (append-nil consumed);
          safe_archived = uploaded_all a base now consumed r inv uploaded;
          bound = bound;
        })
      ]

  -- The two ways that `finally` goes.
  flush_unless_empty :
      (P : Run a → Type 0) (Q : Type 0) (batch : List E) (r r' : Run a)
      → P r
      → (Q → P r')
      → (batch ≡ []) ⊎ Q
      → P (elim batch [ [] ↦ r | _ ∷ _ ↦ r' ])
  flush_unless_empty P Q [] r r' kept flushed h = kept
  flush_unless_empty P Q (x ∷ xs) r r' kept flushed (inl empty) = ground (arith, empty)
  flush_unless_empty P Q (x ∷ xs) r r' kept flushed (inr q) = flushed q

  shutdown-Inv :
      (base now : ℕ) (consumed : List E) (r : Run a)
      → Inv a base consumed r
      → AtEnd (base + length consumed) r
      → Inv a base consumed (shutdown a now r)
  unfolding shutdown
  shutdown-Inv base now consumed r inv =
      flush_unless_empty (Inv a base consumed) (suc r.last_offset ≡ base + length consumed) r.batch
        r (flush_last a now r).1 inv (flush_last-Inv base now consumed r inv)

  -- The loop and its `finally`, from an empty batch on.
  pub ended-Inv :
      (base now offset : ℕ) (consumed : List E) (timed : List (ℕ × E)) (r : Run a)
      → Inv a base consumed r
      → r.batch ≡ []
      → offset ≡ base + length consumed
      → Inv a base
          (consumed ++ map (λ p. p.1) timed)
          (shutdown a now (archive_all a offset timed r))
  ended-Inv base now offset consumed timed r inv empty at_start =
      let looped = archive_all-Inv a base offset consumed timed r inv at_start in
      let at_end = archive_all-AtEnd offset timed r (inl empty) in
      let all = consumed ++ map (λ p. p.1) timed in
      let same : offset + length timed ≡ base + length all =
        omega
          (arith, length-append {0} consumed (map (λ p. p.1) timed), length-map timed, at_start) in
      shutdown-Inv base now all (archive_all a offset timed r) looped
        (subst (λ n. AtEnd n (archive_all a offset timed r)) same at_end)

  -- The loop and then its `finally` run from an empty batch and a committed position no later
  -- than the first record, and any of their calls may fail. The events consumed then split into
  -- a first part, each event of which is in a batch that was put into the bucket, and a rest,
  -- and the committed position is not past the first part.
  pub shutdown-archived :
      (base now : ℕ) (timed : List (ℕ × E)) (r : Run a)
      → r.batch ≡ []
      → committed_of a r ≤ base
      → let r' = shutdown a now (archive_all a base timed r) in
        (safe : List E) × (rest : List E) × (map (λ p. p.1) timed ≡ safe ++ rest)
        × AllArchived (objects_of a r') safe
        × (committed_of a r' ≤ base + length safe)
  shutdown-archived base now timed r empty before =
      let inv =
        ended-Inv base now base [] timed r (start-Inv a base r empty before) empty (omega arith) in
      (inv.safe, inv.rest, inv.safe_split, inv.safe_archived, inv.bound)
