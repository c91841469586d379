-- ===== src/Archiver/Restarts.antt =====
-- The archiver of consumers/archiver.py over many lives of its process: each starts at the position
-- that its group has committed, and it may be killed or fail at any time.
use mathlib.Core.List.{append_assoc, append-nil}
use event_sourcing_cqrs.Prelude.{
  ℕ, zero, suc, ◌+◌, ◌≤◌, ◌≡◌, refl, sym, ap, ◌∙◌, subst, inl, inr, String, List, [], ◌∷◌, ◌++◌,
  map, arith, length, length-append,
}
use event_sourcing_cqrs.Prelude.Newest.{take, drop}
use event_sourcing_cqrs.Services.Connections.{Connections}
use event_sourcing_cqrs.Services.Buckets.{Buckets}
use event_sourcing_cqrs.Archiver.{Archive, Run, archive_all}
use event_sourcing_cqrs.Archiver.Safety.{Objects, AllArchived, objects_of, committed_of, Inv}
use event_sourcing_cqrs.Archiver.Loop.{archive_all-Inv}
use event_sourcing_cqrs.Archiver.Shutdown.{ended-Inv}
use event_sourcing_cqrs.Archiver.Process.{Process, fresh, archive, archive-run}

module _ {E : Type 0} where
  take-drop : (n : ℕ) (xs : List E) → n ≤ length xs → take n xs ++ drop n xs ≡ xs
  unfolding take drop
  take-drop zero xs h = refl
  take-drop (suc n) [] h = absurd (omega arith)
  take-drop (suc n) (x ∷ xs) h = ap (λ ys. x ∷ ys) (take-drop n xs (omega arith))

  length-take : (n : ℕ) (xs : List E) → n ≤ length xs → length (take n xs) ≡ n
  unfolding take
  length-take zero xs h = refl
  length-take (suc n) [] h = absurd (omega arith)
  length-take (suc n) (x ∷ xs) h = ap suc (length-take n xs (omega arith))

  -- The first events of a list are archived if they are among those of a first part that is.
  take-AllArchived :
      (objects : Objects E) (n : ℕ) (safe rest : List E)
      → n ≤ length safe
      → AllArchived objects safe
      → AllArchived objects (take n (safe ++ rest))
  unfolding take
  take-AllArchived objects zero safe rest h all = tt
  take-AllArchived objects (suc n) [] rest h all = absurd (omega arith)
  take-AllArchived objects (suc n) (x ∷ safe) rest h (first, others) =
      (first, take-AllArchived objects n safe rest (omega arith) others)

module _ {E : Type 0} (a : Archive E) (s3 : Buckets) (h : Connections) (log : List E) where
  -- Every event of the log before the committed position is in a batch in the bucket.
  abbrev pub ArchivedTo : Run a → Type 0
  ArchivedTo r =
      (committed_of a r ≤ length log) × AllArchived (objects_of a r) (take (committed_of a r) log)

  -- The records that a process reads are those of the log from the committed position on.
  abbrev pub Delivered : Run a → List (ℕ × E) → Type 0
  Delivered r timed =
      (later : List E) × (map (λ q. q.1) timed ++ later ≡ drop (committed_of a r) log)

  -- A life of the process, which starts with any state of its connections.
  pub data Life (p : Process a s3 h) : Process a s3 h → Type 0 where
    -- it ends by itself
    ends :
        (bucket : String) (now : ℕ) (timed : List (ℕ × E)) (c : h.State)
        → Delivered p.run timed
        → Life p
            (archive a s3 h bucket now
              (committed_of a p.run)
              timed
              (record p { connections = c })).1
    -- it is killed between two records, and its `finally` does not run
    killed :
        (timed : List (ℕ × E)) (b : s3.State) (c : h.State)
        → Delivered p.run timed
        → Life p (record {
          run = archive_all a (committed_of a p.run) timed (fresh a s3 h p.run);
          buckets = b;
          connections = c;
        })

  pub data Lives (start : Process a s3 h) : Process a s3 h → Type 0 where
    here : Lives start start
    next : {p p' : Process a s3 h} → Lives start p → Life p p' → Lives start p'

  fresh-Inv : (r : Run a) → ArchivedTo r → Inv a 0 (take (committed_of a r) log) (fresh a s3 h r)
  fresh-Inv r (within, archived) =
      let seen = take (committed_of a r) log in
      record {
        closed = seen;
        split = sym (append-nil seen);
        closed_archived = archived;
        safe = seen;
        rest = [];
        safe_split = sym (append-nil seen);
        safe_archived = archived;
        bound = omega (arith, length-take (committed_of a r) log within);
      }

  -- What was consumed is a first part of the log, and what is committed is in it.
  Inv-ArchivedTo :
      (consumed later : List E) (r : Run a)
      → consumed ++ later ≡ log
      → Inv a 0 consumed r
      → ArchivedTo r
  Inv-ArchivedTo consumed later r whole inv =
      let split : inv.safe ++ (inv.rest ++ later) ≡ log =
        sym (append_assoc inv.safe inv.rest later)
        ∙ ap (λ xs. xs ++ later) (sym inv.safe_split)
        ∙ whole in
      let bound : committed_of a r ≤ length inv.safe = omega (arith, inv.bound) in
      (
        omega (arith, bound, ap length split, length-append {0} inv.safe (inv.rest ++ later)),
        subst (λ xs. AllArchived (objects_of a r) (take (committed_of a r) xs)) split
            (take-AllArchived (objects_of a r) (committed_of a r) inv.safe (inv.rest ++ later) bound
              inv.safe_archived),
      )

  -- The records read before and by a life are a first part of the log.
  read_so_far :
      (r : Run a) (timed : List (ℕ × E))
      → ArchivedTo r
      → (d : Delivered r timed) → (take (committed_of a r) log ++ map (λ q. q.1) timed) ++ d.0 ≡ log
  read_so_far r timed archived d =
      append_assoc (take (committed_of a r) log) (map (λ q. q.1) timed) d.0
      ∙ ap (λ xs. take (committed_of a r) log ++ xs) d.1
      ∙ take-drop (committed_of a r) log archived.0

  at_committed :
      (r : Run a) → ArchivedTo r → committed_of a r ≡ 0 + length (take (committed_of a r) log)
  at_committed r archived = omega (arith, length-take (committed_of a r) log archived.0)

  Life-ArchivedTo : {p p' : Process a s3 h} → Life p p' → ArchivedTo p.run → ArchivedTo p'.run
  Life-ArchivedTo {p} (ends bucket now timed c d) archived =
      let n = committed_of a p.run in
      elim (archive-run a s3 h bucket now n timed (record p { connections = c })) [
        | inl same ↦ rw same archived
        | inr ended ↦ rw ended (
            Inv-ArchivedTo _ d.0 _ (read_so_far p.run timed archived d) (
              ended-Inv a 0 now n (take n log) timed (fresh a s3 h p.run) (fresh-Inv p.run archived)
                refl (at_committed p.run archived)))
      ]
  Life-ArchivedTo {p} (killed timed b c d) archived =
      let n = committed_of a p.run in
      Inv-ArchivedTo _ d.0 _ (read_so_far p.run timed archived d) (
        archive_all-Inv a 0 n (take n log) timed (fresh a s3 h p.run) (fresh-Inv p.run archived)
          (at_committed p.run archived))

  -- The archiver lives any number of times. Each life starts at the committed position with no
  -- batch, reads records of the log from there on, and ends by itself, where any call may fail,
  -- or is killed between two records. If nothing was committed at first, then after the last
  -- life every event of the log before the committed position is in a batch that was put into
  -- the bucket.
  pub Lives-ArchivedTo :
      {start p : Process a s3 h} → committed_of a start.run ≡ 0 → Lives start p → ArchivedTo p.run
  unfolding take
  Lives-ArchivedTo nothing here = rw nothing (omega arith, tt)
  Lives-ArchivedTo nothing (next lives life) = Life-ArchivedTo life (Lives-ArchivedTo nothing lives)
