-- ===== src/Archiver/Safety.antt =====
-- What an upload and a commit do to the archive, however they end.
use mathlib.Core.List.{append-nil}
use event_sourcing_cqrs.Prelude.{
  ℕ, suc, ◌+◌, ◌≤◌, ◌≡◌, refl, sym, ap, inl, inr, String, List, [], ◌∷◌, ◌++◌, arith, Memᴰ,
  mem-append_left, mem-snoc, length, length-append,
}
use event_sourcing_cqrs.Exec.{ok, Result-cases}
use event_sourcing_cqrs.Archiver.{Batch, Archive, Run, upload_batch_to_s3, flush}

abbrev pub Objects : Type 0 → Type 0
Objects E = List (String × Batch E)

module _ {E : Type 0} where
  -- The event is in an uploaded batch.
  abbrev pub IsArchived : Objects E → E → Type 0
  IsArchived objects x = (o : String × Batch E) × Memᴰ o objects × Memᴰ x o.1.events

  -- So is every event of a list.
  abbrev pub AllArchived : Objects E → List E → Type 0
  AllArchived objects [] = Unit
  AllArchived objects (x ∷ xs) = IsArchived objects x × AllArchived objects xs

  AllArchived-grow :
      (objects more : Objects E) (xs : List E)
      → AllArchived objects xs
      → AllArchived (objects ++ more) xs
  AllArchived-grow objects more [] h = tt
  AllArchived-grow objects more (x ∷ xs) ((o, stored, inside), rest) =
      ((o, mem-append_left o objects more stored, inside), AllArchived-grow objects more xs rest)

  AllArchived-append :
      (objects : Objects E) (xs ys : List E)
      → AllArchived objects xs
      → AllArchived objects ys
      → AllArchived objects (xs ++ ys)
  AllArchived-append objects [] ys hx hy = hy
  AllArchived-append objects (x ∷ xs) ys hx hy = (hx.0, AllArchived-append objects xs ys hx.1 hy)

  AllArchived-batch :
      (objects : Objects E) (o : String × Batch E) (xs : List E)
      → ((x : E) → Memᴰ x xs → Memᴰ x o.1.events)
      → AllArchived (objects ++ o ∷ []) xs
  AllArchived-batch objects o [] inside = tt
  AllArchived-batch objects o (x ∷ xs) inside = (
    (o, mem-snoc objects o, inside x (Memᴰ.head refl)),
    AllArchived-batch objects o xs (λ y m. inside y (Memᴰ.tail m)),
  )

module _ {E : Type 0} (a : Archive E) where
  abbrev pub objects_of : Run a → Objects E
  objects_of r = a.s3.objects r.s3

  abbrev pub committed_of : Run a → ℕ
  committed_of r = a.group.committed r.group

  -- The consumed events are those of closed batches, all archived, and the open batch; and the
  -- committed ones are archived.
  pub record Inv (base : ℕ) (consumed : List E) (r : Run a) : Type 0 where
    pub closed : List E
    pub split : consumed ≡ closed ++ r.batch
    pub closed_archived : AllArchived (objects_of r) closed
    pub safe : List E
    pub rest : List E
    pub safe_split : consumed ≡ safe ++ rest
    pub safe_archived : AllArchived (objects_of r) safe
    pub bound : committed_of r ≤ base + length safe

  -- An upload keeps what is archived, and adds the batch if it returns.
  pub upload_keeps :
      (now : ℕ) (r : Run a) (xs : List E)
      → AllArchived (objects_of r) xs
      → AllArchived (objects_of (upload_batch_to_s3 a now r.batch r.last_offset r).1) xs
  unfolding upload_batch_to_s3
  upload_keeps now r xs h =
      let body : Batch E = record { events = r.batch; last_offset = r.last_offset } in
      let key = a.key_at now r.last_offset in
      elim (Result-cases (a.s3.put_object key body r.s3).0) [
        | inl (_, put) ↦ rw (a.s3.put_object_returns key body r.s3 put) (AllArchived-grow _ _ xs h)
        | inr (e, failed) ↦ elim (a.s3.put_object_raises key body r.s3 e failed) [
          | inl same ↦ rw same h
          | inr written ↦ rw written (AllArchived-grow _ _ xs h)
        ]
      ]

  upload_adds :
      (now : ℕ) (r : Run a)
      → (upload_batch_to_s3 a now r.batch r.last_offset r).0 ≡ ok tt
      → AllArchived (objects_of (upload_batch_to_s3 a now r.batch r.last_offset r).1) r.batch
  unfolding upload_batch_to_s3
  upload_adds now r put =
      let body : Batch E = record { events = r.batch; last_offset = r.last_offset } in
      let key = a.key_at now r.last_offset in
      rw (a.s3.put_object_returns key body r.s3 put)
        (AllArchived-batch (objects_of r) (key, body) r.batch (λ x m. m))

  -- After an upload that returned, everything consumed is archived.
  pub uploaded_all :
      (base now : ℕ) (consumed : List E) (r : Run a)
      → Inv base consumed r
      → (upload_batch_to_s3 a now r.batch r.last_offset r).0 ≡ ok tt
      → AllArchived (objects_of (upload_batch_to_s3 a now r.batch r.last_offset r).1) consumed
  uploaded_all base now consumed r inv put = rw inv.split (
      AllArchived-append _ inv.closed r.batch (upload_keeps now r inv.closed inv.closed_archived)
        (upload_adds now r put))

  -- Committing the offset after everything that was consumed, all archived.
  pub commit_bound :
      (n base : ℕ) (consumed : List E) (r : Run a) (old : ℕ)
      → n ≡ base + length consumed
      → committed_of r ≤ base + old
      → old ≤ length consumed
      → a.group.committed (a.group.commit n r.group).1 ≤ base + length consumed
  commit_bound n base consumed r old at_end before inside =
      elim (Result-cases (a.group.commit n r.group).0) [
        | inl (_, done) ↦ omega (arith, a.group.commit_returns n r.group done)
        | inr (e, failed) ↦ elim (a.group.commit_raises n r.group e failed) [
          | inl same ↦ omega (arith, same)
          | inr moved ↦ omega (arith, moved)
        ]
      ]

  pub safe_inside :
      (base : ℕ) (consumed : List E) (r : Run a) (inv : Inv base consumed r)
      → length inv.safe ≤ length consumed
  safe_inside base consumed r inv =
      omega (arith, ap length inv.safe_split, length-append {0} inv.safe inv.rest)

  -- The open batch is uploaded, and the offset after it committed, in any way that may end.
  pub flush-Inv :
      (base now : ℕ) (consumed : List E) (r : Run a)
      → Inv base consumed r
      → suc r.last_offset ≡ base + length consumed
      → Inv base consumed (flush a now r).1
  unfolding flush upload_batch_to_s3
  flush-Inv base now consumed r inv at_end =
      let bound =
        commit_bound (suc r.last_offset) base consumed r (length inv.safe) at_end inv.bound
          (safe_inside base consumed r inv) in
      elim (Result-cases (upload_batch_to_s3 a now r.batch r.last_offset r).0) [
        | inr (_, failed) ↦ rw failed (record {
          closed = inv.closed;
          split = inv.split;
          closed_archived = upload_keeps now r inv.closed inv.closed_archived;
          safe = inv.safe;
          rest = inv.rest;
          safe_split = inv.safe_split;
          safe_archived = upload_keeps now r inv.safe inv.safe_archived;
          bound = inv.bound;
        })
        | inl (_, uploaded) ↦
            let all = uploaded_all base now consumed r inv uploaded in
            rw uploaded (elim (Result-cases (a.group.commit (suc r.last_offset) r.group).0) [
              | inl (_, done) ↦ rw done (record {
                closed = consumed;
                split = sym (append-nil consumed);
                closed_archived = all;
                safe = consumed;
                rest = [];
                safe_split = sym (append-nil consumed);
                safe_archived = all;
                bound = bound;
              })
              | inr (_, lost) ↦ rw lost (record {
                closed = inv.closed;
                split = inv.split;
                closed_archived = upload_keeps now r inv.closed inv.closed_archived;
                safe = consumed;
                rest = [];
                safe_split = sym (append-nil consumed);
                safe_archived = all;
                bound = bound;
              })
            ])
      ]
