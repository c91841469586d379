-- ===== src/EventStore/Indexes.antt =====
-- `setup_indexes` of api/services/event_store.py, which the API calls at each start.
use event_sourcing_cqrs.Prelude.{
  ℕ, String, Bool, Option, ap, ◌++◌, ◌⊎◌, ◌≡◌, refl, ◌∙◌, inl, inr, true, false, none, some, List,
  [], ◌∷◌, Memᴰ,
}
use event_sourcing_cqrs.Exec.{Exec, Error, ok, err, pure, ◌>>◌}
use event_sourcing_cqrs.Exec.Chain.{bind-cases}
use event_sourcing_cqrs.Services.Indexes.{Index, Indexes}

abbrev pub idx_aggregate_version : Index
idx_aggregate_version = record {
  keys = "aggregate_id" ∷ "aggregate_version" ∷ [];
  unique = true;
  expire_after_seconds = none;
  name = "idx_aggregate_version";
}

abbrev pub idx_aggregate_time : Index
idx_aggregate_time = record {
  keys = "aggregate_id" ∷ "occurred_at" ∷ [];
  unique = false;
  expire_after_seconds = none;
  name = "idx_aggregate_time";
}

abbrev pub idx_event_type : Index
idx_event_type = record {
  keys = "event_type" ∷ [];
  unique = false;
  expire_after_seconds = none;
  name = "idx_event_type";
}

abbrev pub idx_event_id : Index
idx_event_id = record {
  keys = "event_id" ∷ [];
  unique = true;
  expire_after_seconds = none;
  name = "idx_event_id";
}

abbrev pub idx_event_expiry : Index
idx_event_expiry = record {
  keys = "expires_at" ∷ [];
  unique = false;
  expire_after_seconds = some 0;
  name = "idx_event_expiry";
}

abbrev pub event_indexes : List Index
event_indexes =
    idx_aggregate_version ∷ idx_aggregate_time ∷ idx_event_type ∷ idx_event_id ∷ idx_event_expiry
    ∷ []

module _ (mongo : Indexes) where
  -- One after another.
  unfoldable pub create_all : List Index → Exec mongo.State (Unit {0})
  create_all [] = pure tt
  create_all (i ∷ is) = let rest = create_all is in mongo.create_index i >> rest

  -- `setup_indexes`
  unfoldable pub setup_indexes : Exec mongo.State (Unit {0})
  setup_indexes = create_all event_indexes

  -- The collection has an index on these fields.
  abbrev pub IndexedBy : List String → Bool → Option ℕ → mongo.State → Type 0
  IndexedBy fields unique expire_after s =
      (i : Index) × Memᴰ i (mongo.indexes s)
      × (i.keys ≡ fields)
      × (i.unique ≡ unique)
      × (i.expire_after_seconds ≡ expire_after)

  -- No two events of one order have one version, and no two events one id; the queries of an order's
  -- events by time and of a type's events have their indexes; and a document expires at its
  -- `expires_at`.
  pub record IsIndexed (s : mongo.State) : Type 0 where
    pub by_version : IndexedBy ("aggregate_id" ∷ "aggregate_version" ∷ []) true none s
    pub by_time : IndexedBy ("aggregate_id" ∷ "occurred_at" ∷ []) false none s
    pub by_type : IndexedBy ("event_type" ∷ []) false none s
    pub by_id : IndexedBy ("event_id" ∷ []) true none s
    pub by_expiry : IndexedBy ("expires_at" ∷ []) false (some 0) s

  -- The collection has every index of a list.
  abbrev pub HasAll : List Index → mongo.State → Type 0
  HasAll is s = (i : Index) → Memᴰ i is → Memᴰ i (mongo.indexes s)

  create_all-keeps :
      (is : List Index) (j : Index) (s : mongo.State)
      → Memᴰ j (mongo.indexes s)
      → Memᴰ j (mongo.indexes (create_all is s).1)
  unfolding create_all
  create_all-keeps [] j s m = m
  create_all-keeps (i ∷ is) j s m =
      elim (bind-cases (mongo.create_index i) (λ _. create_all is) s) [
        | inr (_, _, same) ↦ rw same (mongo.create_index_keeps i j s m)
        | inl (_, _, same) ↦ rw same (create_all-keeps is j _ (mongo.create_index_keeps i j s m))
      ]

  HasAll-cons :
      (i : Index) (is : List Index) (s : mongo.State)
      → Memᴰ i (mongo.indexes s)
      → HasAll is s
      → HasAll (i ∷ is) s
  HasAll-cons i is s first others j (Memᴰ.head e) = rw e first
  HasAll-cons i is s first others j (Memᴰ.tail m) = others j m

  -- A call for an index of the list raised, and with it the whole.
  abbrev pub CreationRaised : List Index → mongo.State → Error → Type 0
  CreationRaised is s e =
      (before : List Index) × (i : Index) × (after : List Index) × (is ≡ before ++ i ∷ after)
      × ((create_all before s).0 ≡ ok tt)
      × ((mongo.create_index i (create_all before s).1).0 ≡ err e)

  create_all-cases :
      (is : List Index) (s : mongo.State)
      → ((create_all is s).0 ≡ ok tt) × HasAll is (create_all is s).1
        ⊎ (e : Error) × ((create_all is s).0 ≡ err e) × CreationRaised is s e
  unfolding create_all
  create_all-cases [] s = inl (refl, λ j m. elim m [ ])
  create_all-cases (i ∷ is) s = elim (bind-cases (mongo.create_index i) (λ _. create_all is) s) [
    | inr (e, failed, same) ↦ rw same (inr (e, refl, ([], i, is, refl, refl, failed)))
    | inl (_, done, same) ↦
        let s₁ = (mongo.create_index i s).1 in
        rw same (elim (create_all-cases is s₁) [
          | inl (all, others) ↦ inl (
            all,
            HasAll-cons i is _ (create_all-keeps is i s₁ (mongo.create_index_returns i s done))
                others,
          )
          | inr (e, failed, (before, j, after, split, returned, raised)) ↦ inr (
            e,
            failed,
            (i ∷ before, j, after, ap (λ l. i ∷ l) split, rw done returned, rw done raised),
          )
        ])
  ]

  create_all_again :
      (is : List Index) (s : mongo.State)
      → HasAll is s
      → mongo.indexes (create_all is s).1 ≡ mongo.indexes s
  unfolding create_all
  create_all_again [] s h = refl
  create_all_again (i ∷ is) s h =
      let first = mongo.create_index_again i s (h i (Memᴰ.head refl)) in
      elim (bind-cases (mongo.create_index i) (λ _. create_all is) s) [
        | inr (_, _, same) ↦ rw same first
        | inl (_, _, same) ↦ rw same (
            create_all_again is (mongo.create_index i s).1 (λ j m. rw first (h j (Memᴰ.tail m)))
            ∙ first)
      ]

  HasAll-IsIndexed : (s : mongo.State) → HasAll event_indexes s → IsIndexed s
  HasAll-IsIndexed s all = record {
    by_version = (idx_aggregate_version, all _ (Memᴰ.head refl), refl, refl, refl);
    by_time = (idx_aggregate_time, all _ (Memᴰ.tail (Memᴰ.head refl)), refl, refl, refl);
    by_type = (idx_event_type, all _ (Memᴰ.tail (Memᴰ.tail (Memᴰ.head refl))), refl, refl, refl);
    by_id = (
      idx_event_id,
      all _ (Memᴰ.tail (Memᴰ.tail (Memᴰ.tail (Memᴰ.head refl)))),
      refl,
      refl,
      refl,
    );
    by_expiry = (
      idx_event_expiry,
      all _ (Memᴰ.tail (Memᴰ.tail (Memᴰ.tail (Memᴰ.tail (Memᴰ.head refl))))),
      refl,
      refl,
      refl,
    );
  }

  -- Either `setup_indexes` returns. Then the collection has a unique index on the order with
  -- the version and one on the event's id, an index on the order with the time and one on the
  -- type, and one that expires documents at their `expires_at`; and a second call changes no
  -- index, however it ends. Or it raises what the creation of one of its indexes raised, after
  -- those before it.
  pub setup_indexes_cases :
      (s : mongo.State)
      → ((setup_indexes s).0 ≡ ok tt)
          × IsIndexed (setup_indexes s).1
          × (mongo.indexes (setup_indexes (setup_indexes s).1).1
              ≡ mongo.indexes (setup_indexes s).1)
        ⊎ (e : Error) × ((setup_indexes s).0 ≡ err e) × CreationRaised event_indexes s e
  unfolding setup_indexes
  setup_indexes_cases s = elim (create_all-cases event_indexes s) [
    | inr failed ↦ inr failed
    | inl (done, all) ↦
        inl (done, HasAll-IsIndexed _ all, create_all_again event_indexes (setup_indexes s).1 all)
  ]
