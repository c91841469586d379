-- ===== src/Tests/Race.antt =====
-- Two clients add an item to one order at the same time.
use event_sourcing_cqrs.Prelude.{ℕ, refl, [], ◌∷◌, select, sort_by, insert_by}
use event_sourcing_cqrs.Events.{Event, order_item_added_event}
use event_sourcing_cqrs.Aggregate.{rebuild_from_events, apply, apply_payload, assert_can_add_item}
use event_sourcing_cqrs.EventStore.{append, get_events}
use event_sourcing_cqrs.EventStore.History.{IsLegal, history}
use event_sourcing_cqrs.Commands.{World, load_aggregate}
use event_sourcing_cqrs.Commands.Legal.{docs_of}
use event_sourcing_cqrs.Commands.Race.{add, System, Step, draw, prepare, Reach, here, next}
use event_sourcing_cqrs.Commands.Race.Safety.{Reach-IsLegal}
use event_sourcing_cqrs.Tests.Scenario.{
  store as memory, services, stamp_of, create_request, item_request, nothing_yet, created,
}

abbrev start : System services
start = record { world = nothing_yet; pending = [] }

-- The systems after a step.
abbrev prepared_in : Event ℕ → System services → System services
prepared_in e s = record {
  world = (load_aggregate services "o1" s.world).1;
  pending = e ∷ s.pending;
}

abbrev drawn : System services → System services
drawn s = record s { pending = created ∷ s.pending }

abbrev stored_in : Event ℕ → System services → World services
stored_in e s = record { mongo = (append memory e s.world.mongo).1; bus = s.world.bus }

abbrev first_add : Event ℕ
first_add = order_item_added_event services.float (stamp_of "a1" 20) "o1" 2 "pen" "Pen" 3 2

abbrev second_add : Event ℕ
second_add = order_item_added_event services.float (stamp_of "a2" 21) "o1" 2 "pen" "Pen" 3 2

abbrev one_created : System services
one_created = record { world = stored_in created (drawn start); pending = [] }

abbrev both_prepared : System services
both_prepared = prepared_in second_add (prepared_in first_add one_created)

abbrev second_stored : System services
second_stored = record { world = stored_in second_add both_prepared; pending = first_add ∷ [] }

abbrev first_refused : System services
first_refused = record { world = stored_in first_add second_stored; pending = [] }

race : Reach services start first_refused
unfolding history select load_aggregate get_events append rebuild_from_events apply apply_payload
    assert_can_add_item sort_by insert_by
race =
    next
      (next
        (next
          (next
            (next (next here (draw (stamp_of "e1" 10) "o1" create_request refl))
              (Step.store created [] [] refl))
            (prepare "o1" first_add (add (stamp_of "a1" 20) "o1" item_request _ refl refl)))
          (prepare "o1" second_add (add (stamp_of "a2" 21) "o1" item_request _ refl refl)))
        (Step.store second_add [] (first_add ∷ []) refl))
      (Step.store first_add [] [] refl)

Reach-IsLegal_example : IsLegal (docs_of services first_refused.world)
Reach-IsLegal_example = Reach-IsLegal services start first_refused refl refl race
