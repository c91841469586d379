-- ===== src/EventStore/Append.antt =====
-- Appending: what is stored and what is refused, however the call ends.
use event_sourcing_cqrs.Prelude.{
  ◌≡◌, ◌≢◌, ◌⊎◌, inl, inr, true, false, Bool-cases, List, [], ◌∷◌, ◌++◌, arith,
}
use event_sourcing_cqrs.Events.{Event}
use event_sourcing_cqrs.Exec.{Error, Result, ok, err, driver, version_conflict, Result-cases}
use event_sourcing_cqrs.Exec.Message.{is_duplicate_key}
use event_sourcing_cqrs.Services.Collection.{clashes}
use event_sourcing_cqrs.EventStore.{
  Document, EventCollection, same_index_key, append, on_insert_error,
}
use event_sourcing_cqrs.EventStore.History.{
  new_document, IsLegal, IsNext, IsNext-later, IsLegal-next,
}

-- An exception whose text does not speak of a duplicate key.
abbrev pub IsOther : Error → Type 0
IsOther (driver text) = is_duplicate_key text ≡ false
IsOther _ = Unit

module _ {F : Type 0} (mongo : EventCollection F) (e : Event F) (s : mongo.State) where
  -- The event is stored at the end, and clashed with nothing before.
  abbrev Stored : mongo.State → Type 0
  Stored s' =
      (clashes same_index_key (new_document e) (mongo.docs s) ≡ false)
      × (mongo.docs s' ≡ mongo.docs s ++ new_document e ∷ [])

  pub append_outcome :
      (mongo.docs (append mongo e s).1 ≡ mongo.docs s) ⊎ Stored (append mongo e s).1
  unfolding append
  append_outcome = elim (Result-cases (mongo.insert_one (new_document e) s).0) [
    | inl (_, returned) ↦ inr (mongo.insert_one_returns (new_document e) s returned)
    | inr (error, raised) ↦ mongo.insert_one_raises (new_document e) s error raised
  ]

  -- An append that returns has stored the event.
  pub append_returns : (append mongo e s).0 ≡ ok tt → Stored (append mongo e s).1
  unfolding append
  append_returns h = elim (Result-cases (mongo.insert_one (new_document e) s).0) [
    | inl (_, returned) ↦ mongo.insert_one_returns (new_document e) s returned
    | inr (error, raised) ↦ ground (arith, h, raised)
  ]

  -- An event whose order and version, or whose id, is stored already is not stored, and its
  -- `append` does not return.
  pub append_taken :
      clashes same_index_key (new_document e) (mongo.docs s) ≡ true
      → ((append mongo e s).0 ≢ ok tt) × (mongo.docs (append mongo e s).1 ≡ mongo.docs s)
  append_taken h = (
    λ returned. cc (h, (append_returns returned).0),
    elim append_outcome [ inl same ↦ same | inr stored ↦ cc (h, stored.0) ],
  )

  -- How an `append` ends.
  pub data Appended : Result (Unit {0}) → mongo.State → Type 0 where
    accepted : {s' : mongo.State} → Stored s' → Appended (ok tt) s'
    -- a unique key of the event is that of a stored document
    conflict :
        {s' : mongo.State}
        → clashes same_index_key (new_document e) (mongo.docs s) ≡ true
        → mongo.docs s' ≡ mongo.docs s
        → Appended (err (version_conflict e.aggregate_id e.aggregate_version)) s'
    -- the exception of the insertion, which is no duplicate key, is raised again
    failed :
        {s' : mongo.State} (error : Error)
        → (mongo.insert_one (new_document e) s).0 ≡ err error
        → IsOther error
        → (mongo.docs s' ≡ mongo.docs s) ⊎ Stored s'
        → Appended (err error) s'

  -- An `append` ends in one of three ways. It returns, the event is stored last, and no
  -- document before had a unique key of it. It raises the version conflict of the event's order
  -- and version, a stored document has a unique key of the event, and nothing is stored. Or it
  -- raises the exception of the insertion, which does not speak of a duplicate key, and nothing
  -- is stored, or the event is as in the first way.
  pub append-Appended : Appended (append mongo e s).0 (append mongo e s).1
  unfolding append
  append-Appended =
      let d = new_document e in
      elim (Result-cases (mongo.insert_one d s).0) [
        | inl (_, returned) ↦ rw returned (accepted (mongo.insert_one_returns d s returned))
        | inr (error, raised) ↦
            rw raised (reraised error raised (mongo.insert_one_raises d s error raised))
      ]
    where
      reraised :
          (error : Error)
          → (mongo.insert_one (new_document e) s).0 ≡ err error
          → (mongo.docs (mongo.insert_one (new_document e) s).1 ≡ mongo.docs s)
            ⊎ Stored (mongo.insert_one (new_document e) s).1
          → Appended (err (on_insert_error mongo e error)) (mongo.insert_one (new_document e) s).1
      reraised (driver text) raised either = elim (Bool-cases (is_duplicate_key text)) [
        | inl duplicate ↦
            let (taken, same) = mongo.insert_one_refused (new_document e) s text raised duplicate in
            rw duplicate (conflict taken same)
        | inr other ↦ rw other (failed (driver text) raised other either)
      ]
      reraised error raised either = failed error raised tt either

  -- An event was the next of its order in an earlier, shorter collection, and the collection
  -- now has legal histories. However its `append` ends, the histories are legal after it.
  pub append-IsLegal :
      (old more : List (Document F))
      → mongo.docs s ≡ old ++ more
      → IsLegal (mongo.docs s)
      → IsNext e old
      → IsLegal (mongo.docs (append mongo e s).1)
  append-IsLegal old more since legal next = elim append_outcome [
    | inl same ↦ rw same legal
    | inr (free, stored) ↦ rw stored (
        IsLegal-next e (mongo.docs s) legal
          (rw since (IsNext-later e old more next (rw since at legal) (rw since at free))))
  ]
