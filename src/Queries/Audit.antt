-- ===== src/Queries/Audit.antt =====
-- `get_order_events` of api/routers/query_router.py, the audit trail, and `get_latest_version` of
-- api/services/event_store.py, on legal histories.
use event_sourcing_cqrs.Prelude.{
  ℕ, zero, suc, ◌+◌, ◌≤◌, String, ◌≡◌, refl, sym, ap, subst, ◌∙◌, ◌⊎◌, inl, inr, some, List, [],
  ◌∷◌, map, foldl, arith, length, select, Memᴰ, Option-cases, List-cases,
}
use mathlib.Core.List.Memᴰ
use event_sourcing_cqrs.Exec.{ok, err, order_not_found, Result-cases, ok-injective}
use event_sourcing_cqrs.Aggregate.Lifecycle.{Stage, absent, walk, lifecycle}
use event_sourcing_cqrs.Aggregate.Histories.{walk-some}
use event_sourcing_cqrs.EventStore.{
  Document, EventCollection, of_aggregate, version_key, get_events, get_latest_version,
  version_or_zero,
}
use event_sourcing_cqrs.EventStore.Load.{get_events_lem}
use event_sourcing_cqrs.EventStore.History.{event_of, history, IsLegal}
use event_sourcing_cqrs.Schemas.{EventHistoryItem}
use event_sourcing_cqrs.Queries.{history_item, get_order_events}

module _ {F : Type 0} where
  -- The versions count on from `n`.
  abbrev pub CountsFrom : ℕ → List (EventHistoryItem F) → Type 0
  CountsFrom n [] = Unit
  CountsFrom n (item ∷ items) = (item.aggregate_version ≡ n) × CountsFrom (suc n) items

  walk-CountsFrom :
      (stage : Stage) (n : ℕ) (docs : List (Document F)) (final : Stage × ℕ)
      → foldl walk (some (stage, n)) (map event_of docs) ≡ some final
      → CountsFrom (suc n) (map history_item docs)
  walk-CountsFrom stage n [] final h = tt
  walk-CountsFrom stage n (d ∷ ds) final h =
      let (next, _, counted, rest) = walk-some stage n d.event (map event_of ds) final h in
      (counted, walk-CountsFrom next (suc n) ds final rest)

  -- The highest version of a history is the number of its events, counted on from `n`.
  walk-highest :
      (stage : Stage) (n : ℕ) (d : Document F) (ds : List (Document F)) (final : Stage × ℕ)
      → foldl walk (some (stage, n)) (map event_of (d ∷ ds)) ≡ some final
      → (x : Document F) × Memᴰ x (d ∷ ds) × (version_key x ≡ n + length (d ∷ ds))
  walk-highest stage n d [] final h =
      let (_, _, counted, _) = walk-some stage n d.event [] final h in
      (d, Memᴰ.head refl, omega (arith, counted))
  walk-highest stage n d (e ∷ es) final h =
      let (next, _, _, rest) = walk-some stage n d.event (map event_of (e ∷ es)) final h in
      let (x, m, highest) = walk-highest next (suc n) e es final rest in
      (x, Memᴰ.tail m, omega (arith, highest))

  walk-bounded :
      (stage : Stage) (n : ℕ) (ds : List (Document F)) (final : Stage × ℕ) (x : Document F)
      → foldl walk (some (stage, n)) (map event_of ds) ≡ some final
      → Memᴰ x ds
      → version_key x ≤ n + length ds
  walk-bounded stage n [] final x h m = elim m [ ]
  walk-bounded stage n (d ∷ ds) final x h (Memᴰ.head same) =
      let (_, _, counted, _) = walk-some stage n d.event (map event_of ds) final h in
      omega (arith, counted, ap (version_key {F = F}) same)
  walk-bounded stage n (d ∷ ds) final x h (Memᴰ.tail m) =
      let (next, _, _, rest) = walk-some stage n d.event (map event_of ds) final h in
      omega (arith, walk-bounded next (suc n) ds final x rest m)

module _ {F : Type 0} (mongo : EventCollection F) (order_id : String) (s : mongo.State)
    (legal : IsLegal (mongo.docs s)) where
  abbrev stored : List (Document F)
  stored = select (of_aggregate order_id) (mongo.docs s)

  stored-leads :
      (final : Stage × ℕ) × (foldl walk (some (absent, zero)) (map event_of stored) ≡ some final)
  unfolding lifecycle history
  stored-leads = legal.leads order_id

  -- On legal histories, where the load of the events returns, `get_order_events` raises the 404
  -- if the order has no event; otherwise it answers with all the events of the order as they
  -- were stored, and their versions count 1, 2, 3 and on.
  pub get_order_events_returns :
      (found : List (Document F))
      → (get_events mongo order_id s).0 ≡ ok found
      → (stored ≡ []) × ((get_order_events mongo order_id s).0 ≡ err (order_not_found order_id))
        ⊎ (((get_order_events mongo order_id s).0 ≡ ok (map history_item stored))
            × CountsFrom 1 (map history_item stored))
  unfolding get_order_events
  get_order_events_returns found h =
      let same = get_events_lem mongo order_id s found legal h in
      let (final, leads) = stored-leads in
      elim (List-cases stored) [
        | inl empty ↦ inl (empty, rw h (rw (same, empty) refl))
        | inr (d, ds, full) ↦
            inr (rw h (rw (same, full) refl), walk-CountsFrom absent 0 stored final leads)
      ]

  last_lem :
      (d : Document F)
      → Memᴰ d stored
      → ((x : Document F) → Memᴰ x stored → version_key x ≤ version_key d)
      → version_key d ≡ length stored
  last_lem d inside greatest =
      let (final, leads) = stored-leads in
      let below = walk-bounded absent 0 stored final d leads inside in
      elim (List-cases stored) [
        | inl empty ↦ absurd (Memᴰ.not-nil (subst (λ l. Memᴰ d l) empty inside))
        | inr (e, es, full) ↦
            let (x, m, highest) = walk-highest absent 0 e es final (rw full at leads) in
            let above = greatest x (subst (λ l. Memᴰ x l) (sym full) m) in
            omega (arith, below, above, highest, ap (length {A = Document F}) full)
      ]

  -- On legal histories a `get_latest_version` that returns gives the number of the order's
  -- events.
  pub get_latest_version_returns :
      (version : ℕ) → (get_latest_version mongo order_id s).0 ≡ ok version → version ≡ length stored
  unfolding get_latest_version
  get_latest_version_returns version h =
      elim (Result-cases (mongo.find_last (of_aggregate order_id) version_key s).0) [
        | inr (_, failed) ↦ ground (arith, failed, h)
        | inl (o, done) ↦
            let counted = ok-injective (rw done at h) in
            elim (Option-cases o) [
              | inl nothing ↦
                  let empty = mongo.find_last_none _ version_key s (rw nothing at done) in
                  rw (empty, ← counted, nothing) refl
              | inr (d, last) ↦
                  let (inside, greatest) =
                    mongo.find_last_some _ version_key s d (rw last at done) in
                  sym counted ∙ ap (version_or_zero mongo) last ∙ last_lem d inside greatest
            ]
      ]
