-- ===== src/Archiver/Loop.antt =====
-- The archiver's loop, record by record.
use mathlib.Core.List.{append-nil, append_assoc}
use event_sourcing_cqrs.Prelude.{
  ℕ, suc, ◌+◌, ◌≤◌, ◌≡◌, refl, sym, subst, inl, inr, List, [], ◌∷◌, ◌++◌, map, arith, length,
  length-append, leb, Bool-cases,
}
use event_sourcing_cqrs.Archiver.{Archive, Run, snapshot_batch_size, archive_record, archive_all}
use event_sourcing_cqrs.Archiver.Safety.{AllArchived, objects_of, committed_of, Inv, flush-Inv}

module _ {E : Type 0} (a : Archive E) where
  -- One more event in the open batch.
  push-Inv :
      (base offset : ℕ) (consumed : List E) (event : E) (r : Run a)
      → Inv a base consumed r
      → Inv a base
          (consumed ++ event ∷ [])
          (record r { batch = r.batch ++ event ∷ []; last_offset = offset })
  push-Inv base offset consumed event r inv = record {
    closed = inv.closed;
    split = rw inv.split (append_assoc inv.closed r.batch (event ∷ []));
    closed_archived = inv.closed_archived;
    safe = inv.safe;
    rest = inv.rest ++ event ∷ [];
    safe_split = rw inv.safe_split (append_assoc inv.safe inv.rest (event ∷ []));
    safe_archived = inv.safe_archived;
    bound = inv.bound;
  }

  archive_record-Inv :
      (base now : ℕ) (consumed : List E) (event : E) (r : Run a)
      → Inv a base consumed r
      → Inv a base (consumed ++ event ∷ []) (archive_record a now (base + length consumed) event r)
  unfolding archive_record
  archive_record-Inv base now consumed event r inv =
      let pushed = push-Inv base (base + length consumed) consumed event r inv in
      elim (Bool-cases (leb snapshot_batch_size (length (r.batch ++ event ∷ [])))) [
        | inl full ↦ rw full (
            flush-Inv a base now (consumed ++ event ∷ []) _ pushed
              (omega (arith, length-append {0} consumed (event ∷ []))))
        | inr open_still ↦ rw open_still pushed
      ]

  pub archive_all-Inv :
      (base offset : ℕ) (consumed : List E) (timed : List (ℕ × E)) (r : Run a)
      → Inv a base consumed r
      → offset ≡ base + length consumed
      → Inv a base (consumed ++ map (λ p. p.1) timed) (archive_all a offset timed r)
  unfolding archive_all
  archive_all-Inv base offset consumed [] r inv at_end = rw append-nil inv
  archive_all-Inv base offset consumed ((now, event) ∷ rest) r inv at_end =
      subst
        (λ all.
          Inv a base all (archive_all a (suc offset) rest (archive_record a now offset event r)))
        (append_assoc consumed (event ∷ []) (map (λ p. p.1) rest))
        (archive_all-Inv base (suc offset) (consumed ++ event ∷ []) rest _
          (subst (λ at. Inv a base (consumed ++ event ∷ []) (archive_record a now at event r))
            (sym at_end) (archive_record-Inv base now consumed event r inv))
          (omega (arith, at_end, length-append {0} consumed (event ∷ []))))

  pub start-Inv : (base : ℕ) (r : Run a) → r.batch ≡ [] → committed_of a r ≤ base → Inv a base [] r
  start-Inv base r empty before = record {
    closed = [];
    split = sym empty;
    closed_archived = tt;
    safe = [];
    rest = [];
    safe_split = refl;
    safe_archived = tt;
    bound = omega (arith, before);
  }

  -- The loop starts with an empty batch and a committed position no later than its first
  -- record, and any of its calls may fail. After any records, the events consumed split into a
  -- first part and a rest: each event of the first part is in a batch that was put into the
  -- bucket, and the committed position is not past that part.
  pub archive_all-archived :
      (base : ℕ) (timed : List (ℕ × E)) (r : Run a)
      → r.batch ≡ []
      → committed_of a r ≤ base
      → let r' = archive_all a base timed r in
        (safe : List E) × (rest : List E) × (map (λ p. p.1) timed ≡ safe ++ rest)
        × AllArchived (objects_of a r') safe
        × (committed_of a r' ≤ base + length safe)
  archive_all-archived base timed r empty before =
      let inv =
        archive_all-Inv base base [] timed r (start-Inv base r empty before) (omega arith) in
      (inv.safe, inv.rest, inv.safe_split, inv.safe_archived, inv.bound)
