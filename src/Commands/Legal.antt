-- ===== src/Commands/Legal.antt =====
-- The parts of a handler, and what each does to the stored histories.
use event_sourcing_cqrs.Prelude.{◌+◌, String, ◌≡◌, inl, inr, List, arith, Option-cases}
use event_sourcing_cqrs.Events.{Event, Stamp, Payload, payload_type, base_event}
use event_sourcing_cqrs.Exec.{Result, ok, Result-cases}
use event_sourcing_cqrs.Aggregate.{OrderAggregate}
use event_sourcing_cqrs.Aggregate.Lifecycle.{advance, stage_of, passes, is_some}
use event_sourcing_cqrs.EventStore.{append, Document}
use event_sourcing_cqrs.EventStore.History.{IsNext}
use event_sourcing_cqrs.Publisher.{publish}
use event_sourcing_cqrs.Commands.{Services, World, record_event}
use event_sourcing_cqrs.Commands.Load.{Loaded}

module _ {F : Type 0} (sv : Services F) where
  abbrev pub docs_of : World sv → List (Document F)
  docs_of w = sv.mongo.docs w.mongo

  -- A guard that passes on a loaded order makes the event of its type the next one.
  pub IsNext-guarded :
      (stamp : Stamp) (order_id : String) (payload : Payload F) (docs : List (Document F))
      (agg : OrderAggregate F) (guard : Result (Unit {0}))
      → Loaded sv order_id docs agg
      → passes guard ≡ is_some (advance (stage_of agg) (payload_type payload))
      → guard ≡ ok tt
      → IsNext (base_event stamp order_id (agg.version + 1) payload) docs
  IsNext-guarded stamp order_id payload docs agg guard loaded decides passed =
      elim (Option-cases (advance (stage_of agg) (payload_type payload))) [
        | inl stuck ↦ ground (arith, stuck, decides, passed)
        | inr (next, moved) ↦ record {
          stage = stage_of agg;
          next = next;
          version = agg.version;
          stands = loaded;
          moves = moved;
          counts = omega arith;
        }
      ]

  -- Publishing and responding store nothing: only the append does.
  pub record_event-mongo :
      (e : Event F) (message : String) (w : World sv)
      → (record_event sv e message w).1.mongo ≡ (append sv.mongo e w.mongo).1
  unfolding record_event
  record_event-mongo e message w = elim (Result-cases (append sv.mongo e w.mongo).0) [
    | inl (_, stored) ↦ rw stored (elim (Result-cases (publish sv.redis sv.kafka e w.bus).0) [
      | inl (_, sent) ↦ rw sent
      | inr (_, lost) ↦ rw lost
    ])
    | inr (_, refused) ↦ rw refused
  ]
