-- ===== src/EventStore/Expiry.antt =====
-- `set_expiry_for_aggregate` of api/services/event_store.py, and what the TTL index makes of it.
use event_sourcing_cqrs.Prelude.{
  ℕ, ◌+◌, ◌≤◌, ◌<◌, String, ◌≡◌, refl, inl, inr, some, List, [], ◌∷◌, map, select, false, arith,
  leb, str_eq, eq_iff, if◌then◌else◌, Bool-cases,
}
use event_sourcing_cqrs.Exec.{ok}
use event_sourcing_cqrs.EventStore.{
  Document, EventCollection, of_aggregate, retention, unexpired, set_expiry_for_aggregate,
}
use event_sourcing_cqrs.EventStore.History.{history}

module _ {F : Type 0} where
  abbrev stamp : String → ℕ → Document F → Document F
  stamp own time d = if of_aggregate own d then record d { expires_at = some time } else d

  stamped-events :
      (own oid : String) (time : ℕ) (docs : List (Document F))
      → history oid (map (stamp own time) docs) ≡ history oid docs
  unfolding history select
  stamped-events own oid time [] = refl
  stamped-events own oid time (d ∷ ds) = ground (arith, stamped-events own oid time ds)

  stamped-kept :
      (own : String) (time now : ℕ) (docs : List (Document F))
      → now < time
      → history own (unexpired now (map (stamp own time) docs)) ≡ history own docs
  unfolding history select unexpired
  stamped-kept own time now [] early = refl
  stamped-kept own time now (d ∷ ds) early = ground (arith, early, stamped-kept own time now ds)

  stamped-gone :
      (own : String) (time now : ℕ) (docs : List (Document F))
      → time ≤ now
      → history own (unexpired now (map (stamp own time) docs)) ≡ []
  unfolding history select unexpired
  stamped-gone own time now [] late = refl
  stamped-gone own time now (d ∷ ds) late = ground (arith, late, stamped-gone own time now ds)

  stamped-other :
      (own oid : String) (time now : ℕ) (docs : List (Document F))
      → str_eq own oid ≡ false
      → history oid (unexpired now (map (stamp own time) docs)) ≡ history oid (unexpired now docs)
  unfolding history select unexpired
  stamped-other own oid time now [] apart = refl
  stamped-other own oid time now (d ∷ ds) apart = ground (
    arith,
    apart,
    eq_iff own oid,
    eq_iff d.event.aggregate_id own,
    eq_iff d.event.aggregate_id oid,
    stamped-other own oid time now ds,
  )

module _ {F : Type 0} (mongo : EventCollection F) where
  -- A call of `set_expiry_for_aggregate` that returns changes no event of the order. Until
  -- thirty days later what has not expired holds all events of the order, from then on it holds
  -- none of them, and at any time it holds of another order what it would have held without the
  -- call.
  pub set_expiry_for_aggregate_returns :
      (now later : ℕ) (own other : String) (s : mongo.State)
      → (set_expiry_for_aggregate mongo now own s).0 ≡ ok tt
      → str_eq own other ≡ false
      → let docs' = mongo.docs (set_expiry_for_aggregate mongo now own s).1 in
        (history own docs' ≡ history own (mongo.docs s))
        × (history own (unexpired later docs')
            ≡ (if leb (now + 2592000000000) later then [] else history own (mongo.docs s)))
        × (history other (unexpired later docs') ≡ history other (unexpired later (mongo.docs s)))
  unfolding set_expiry_for_aggregate
  set_expiry_for_aggregate_returns now later own other s h apart =
      rw (mongo.update_many_returns _ _ s h) (
        stamped-events own own (now + retention) (mongo.docs s),
        elim (Bool-cases (leb (now + retention) later)) [
          | inl late ↦
              rw late
                (stamped-gone own (now + retention) later (mongo.docs s) (ground (arith, late)))
          | inr early ↦
              rw early
                (stamped-kept own (now + retention) later (mongo.docs s) (ground (arith, early)))
        ],
        stamped-other own other (now + retention) later (mongo.docs s) apart,
      )
