-- ===== src/Commands/Load.antt =====
-- `_load_aggregate` over a store with legal histories.
use event_sourcing_cqrs.Prelude.{
  String, ◌≡◌, refl, sym, ap, ◌∙◌, inl, inr, some, List, [], ◌∷◌, map, arith, select,
}
use event_sourcing_cqrs.Exec.{ok, Result-cases, ok-injective}
use event_sourcing_cqrs.Aggregate.{OrderAggregate}
use event_sourcing_cqrs.Aggregate.Lifecycle.{lifecycle, stage_of}
use event_sourcing_cqrs.Aggregate.Histories.{rebuild_from_events-lifecycle}
use event_sourcing_cqrs.EventStore.{Document, get_events, of_aggregate}
use event_sourcing_cqrs.EventStore.History.{event_of, history, IsLegal}
use event_sourcing_cqrs.EventStore.Load.{get_events_lem, get_events-keeps}
use event_sourcing_cqrs.Commands.{Services, World, load_aggregate, rebuild_found}

module _ {F : Type 0} (sv : Services F) (order_id : String) where
  abbrev pub Loaded : List (Document F) → OrderAggregate F → Type 0
  Loaded docs agg = (lifecycle (history order_id docs) ≡ some (stage_of agg, agg.version))

  rebuild_found-Loaded :
      (docs found : List (Document F)) (agg : OrderAggregate F)
      → IsLegal docs
      → found ≡ select (of_aggregate order_id) docs
      → rebuild_found sv order_id found ≡ ok agg
      → Loaded docs agg
  unfolding history
  rebuild_found-Loaded docs [] agg legal same h = cc
  rebuild_found-Loaded docs (d ∷ ds) agg legal same h =
      let ((stage, n), leads) = legal.leads order_id in
      let events = ap (map event_of) same in
      let (agg', rebuilt, at_stage, at_version, _) =
        rebuild_from_events-lifecycle sv.float d.event (map event_of ds) stage n
          (rw events leads) in
      let eq = ok-injective (sym rebuilt ∙ h) in
      leads ∙ cc (at_stage, at_version, ap stage_of eq, ap (λ (a : OrderAggregate F). a.version) eq)

  -- Loading stores nothing and publishes nothing, however it ends.
  pub load_aggregate-keeps :
      (w : World sv)
      → (sv.mongo.docs (load_aggregate sv order_id w).1.mongo ≡ sv.mongo.docs w.mongo)
        × ((load_aggregate sv order_id w).1.bus ≡ w.bus)
  unfolding load_aggregate
  load_aggregate-keeps w = elim (Result-cases (get_events sv.mongo order_id w.mongo).0) [
    | inl (found, e) ↦ rw e (get_events-keeps sv.mongo order_id w.mongo, refl)
    | inr (error, e) ↦ rw e (get_events-keeps sv.mongo order_id w.mongo, refl)
  ]

  pub load_aggregate-Loaded :
      (w : World sv) (agg : OrderAggregate F)
      → IsLegal (sv.mongo.docs w.mongo)
      → (load_aggregate sv order_id w).0 ≡ ok agg
      → Loaded (sv.mongo.docs w.mongo) agg
  unfolding load_aggregate
  load_aggregate-Loaded w agg legal h =
      elim (Result-cases (get_events sv.mongo order_id w.mongo).0) [
        | inl (found, e) ↦
            rebuild_found-Loaded _ found agg legal
              (get_events_lem sv.mongo order_id w.mongo found legal e) (rw e at h)
        | inr (error, e) ↦ ground (arith, e, h)
      ]
