-- ===== src/Aggregate/Order.antt =====
-- `rebuild_from_events`: the order in which the events arrive, and one more event.
use event_sourcing_cqrs.Prelude.{
  ℕ, ◌≡◌, ap₂, List, ◌∷◌, foldl, IsSortedFrom, sort_by-sorted, sort_by-perm, DistinctKeys, Permᴰ,
}
use event_sourcing_cqrs.Float.{Float}
use event_sourcing_cqrs.Events.{Event}
use event_sourcing_cqrs.Exec.{ok}
use event_sourcing_cqrs.Aggregate.{new_aggregate, apply, rebuild_from_events}

abbrev pub version_of : {F : Type 0} → Event F → ℕ
version_of e = e.aggregate_version

module _ {F : Type 0} (float : Float F) where
  -- Two listings of the same events, with different versions and whose first events are of one
  -- order, rebuild to the same result.
  pub rebuild_from_events-perm :
      (e f : Event F) (es fs : List (Event F))
      → Permᴰ (e ∷ es) (f ∷ fs)
      → DistinctKeys version_of (e ∷ es)
      → e.aggregate_id ≡ f.aggregate_id
      → rebuild_from_events float (e ∷ es) ≡ rebuild_from_events float (f ∷ fs)
  unfolding rebuild_from_events
  rebuild_from_events-perm e f es fs p distinct same_order =
      ap₂ (λ (oid : _) (l : List (Event F)). ok (foldl (apply float) (new_aggregate float oid) l))
        same_order (sort_by-perm version_of p distinct)

  -- Events that come by ascending version are replayed as they come.
  pub rebuild_from_events-sorted :
      (e : Event F) (es : List (Event F))
      → IsSortedFrom version_of 0 (e ∷ es)
      → rebuild_from_events float (e ∷ es)
        ≡ ok (foldl (apply float) (new_aggregate float e.aggregate_id) (e ∷ es))
  unfolding rebuild_from_events
  rebuild_from_events-sorted e es h = rw (sort_by-sorted version_of 0 (e ∷ es) h)
