-- ===== src/EventStore/Load.antt =====
-- Loading the events of one order from a store with legal histories.
use mathlib.Core.Logic.{∥∥₁_elim}
use mathlib.Core.HLevel.{⊥_prop}
use mathlib.Core.List.{Pairwise}
use mathlib.Core.List.Permᴰ
use event_sourcing_cqrs.Prelude.{
  ℕ, suc, ◌<◌, String, ◌≡◌, ap, ◌∙◌, some, List, [], ◌∷◌, map, foldl, arith, IsSortedFrom,
  sort_by-sorted, sorted-perm, DistinctKeys, DistinctKeys-perm, Memᴰ, select,
}
use event_sourcing_cqrs.Exec.{ok}
use event_sourcing_cqrs.Aggregate.Order.{version_of}
use event_sourcing_cqrs.Aggregate.Lifecycle.{Stage, absent, walk, lifecycle}
use event_sourcing_cqrs.Aggregate.Histories.{walk-some, walk-IsSortedFrom}
use event_sourcing_cqrs.EventStore.{
  Document, EventCollection, of_aggregate, version_key, get_events,
}
use event_sourcing_cqrs.EventStore.History.{event_of, history, IsLegal}

module _ {F : Type 0} where
  sorted_documents :
      (low : ℕ) (xs : List (Document F))
      → IsSortedFrom version_of low (map event_of xs)
      → IsSortedFrom version_key low xs
  sorted_documents low [] h = tt
  sorted_documents low (x ∷ xs) h = (h.0, sorted_documents (version_key x) xs h.1)

  -- Every later document of a history has a higher version.
  walk-lt :
      (stage : Stage) (n : ℕ) (x : Document F) (xs : List (Document F)) (final : Stage × ℕ)
      → foldl walk (some (stage, n)) (map event_of xs) ≡ some final
      → Memᴰ x xs
      → n < version_key x
  walk-lt stage n x [] final h m = elim m [ ]
  walk-lt stage n x (y ∷ ys) final h (Memᴰ.head same) =
      let (_, _, counted, _) = walk-some stage n y.event (map event_of ys) final h in
      omega (arith, ap (version_key {F = F}) same)
  walk-lt stage n x (y ∷ ys) final h (Memᴰ.tail m) =
      let (next, _, _, rest) = walk-some stage n y.event (map event_of ys) final h in
      omega (arith, walk-lt next (suc n) x ys final rest m)

  walk-DistinctKeys :
      (stage : Stage) (n : ℕ) (xs : List (Document F)) (final : Stage × ℕ)
      → foldl walk (some (stage, n)) (map event_of xs) ≡ some final
      → DistinctKeys version_key xs
  walk-DistinctKeys stage n [] final h = Pairwise.nil
  walk-DistinctKeys stage n (x ∷ xs) final h =
      let (next, moved, counted, rest) = walk-some stage n x.event (map event_of xs) final h in
      Pairwise.cons
        (λ y m same. ∥∥₁_elim m ⊥_prop λ i.
          let above = walk-lt next (suc n) y xs final rest i in omega (arith, counted, same, above))
        (walk-DistinctKeys next (suc n) xs final rest)

module _ {F : Type 0} (mongo : EventCollection F) where
  pub get_events-keeps :
      (order_id : String) (s : mongo.State)
      → mongo.docs (get_events mongo order_id s).1 ≡ mongo.docs s
  unfolding get_events
  get_events-keeps order_id s = mongo.find_sorted_keeps (of_aggregate order_id) version_key s

  -- On legal histories a `get_events` that returns gives the documents of the order in the
  -- order in which they were stored.
  pub get_events_lem :
      (order_id : String) (s : mongo.State) (found : List (Document F))
      → IsLegal (mongo.docs s)
      → (get_events mongo order_id s).0 ≡ ok found
      → found ≡ select (of_aggregate order_id) (mongo.docs s)
  unfolding get_events lifecycle history
  get_events_lem order_id s found legal h =
      let (final, leads) = legal.leads order_id in
      let stored = select (of_aggregate order_id) (mongo.docs s) in
      let (ascending, same) =
        mongo.find_sorted_returns (of_aggregate order_id) version_key s found h in
      let distinct = walk-DistinctKeys absent 0 stored final leads in
      let sorted =
        sorted_documents 0 stored (walk-IsSortedFrom absent 0 (map event_of stored) final leads) in
      sorted-perm version_key (DistinctKeys-perm version_key (Permᴰ.symm same) distinct) ascending
        same
      ∙ sort_by-sorted version_key 0 stored sorted
