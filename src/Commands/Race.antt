-- ===== src/Commands/Race.antt =====
-- Concurrent commands, as interleavings of their steps: a handler loads its order and makes an
-- event, other handlers run in between, and the event is appended later or never.
pub mod Safety
pub mod Alone
use event_sourcing_cqrs.Prelude.{
  ◌+◌, String, ◌≡◌, refl, sym, ap, ◌∙◌, ◌⊎◌, inl, inr, subst, List, [], ◌∷◌, ◌++◌, arith,
}
use mathlib.Core.List.{append-nil, append_assoc}
use event_sourcing_cqrs.Events.{
  Event, Stamp, order_created_event, order_item_added_event, order_confirmed_event,
  order_payment_processed_event, order_shipped_event, order_cancelled_event,
}
use event_sourcing_cqrs.Exec.{ok}
use event_sourcing_cqrs.Aggregate.{
  OrderAggregate, assert_can_add_item, assert_can_confirm, assert_can_pay, assert_can_ship,
  assert_can_cancel,
}
use event_sourcing_cqrs.Aggregate.Lifecycle.{guards_decide}
use event_sourcing_cqrs.EventStore.{append, get_latest_version}
use event_sourcing_cqrs.EventStore.History.{IsLegal, IsNext, history, new_document}
use event_sourcing_cqrs.EventStore.Append.{append_outcome, append-IsLegal}
use event_sourcing_cqrs.Publisher.{on_redis, publish}
use event_sourcing_cqrs.PaymentGateway.{charge}
use event_sourcing_cqrs.Schemas.{
  CreateOrderRequest, AddItemRequest, ProcessPaymentRequest, ShipOrderRequest, CancelOrderRequest,
}
use event_sourcing_cqrs.Commands.{
  Services, World, on_bus, load_aggregate, require_success, idem_cache_key,
}
use event_sourcing_cqrs.Commands.Load.{load_aggregate-keeps, load_aggregate-Loaded}
use event_sourcing_cqrs.Commands.Legal.{docs_of, IsNext-guarded}

module _ {F : Type 0} (sv : Services F) where
  -- The events that the handler of a command on an order, run up to its `append` in the world `w`, may
  -- have made.
  pub data Prepared (w : World sv) : Event F → Type 0 where
    add :
        (stamp : Stamp) (order_id : String) (req : AddItemRequest F) (agg : OrderAggregate F)
        → (load_aggregate sv order_id w).0 ≡ ok agg
        → assert_can_add_item agg ≡ ok tt
        → Prepared w (
            order_item_added_event sv.float stamp order_id
              (agg.version + 1)
              req.product_id
              req.product_name
              req.quantity
              req.unit_price)
    confirm :
        (stamp : Stamp) (order_id : String) (agg : OrderAggregate F)
        → (load_aggregate sv order_id w).0 ≡ ok agg
        → assert_can_confirm agg ≡ ok tt
        → Prepared w (order_confirmed_event stamp order_id (agg.version + 1))
    pay :
        (stamp : Stamp) (order_id : String) (req : ProcessPaymentRequest F) (agg : OrderAggregate F)
        → (load_aggregate sv order_id w).0 ≡ ok agg
        → assert_can_pay agg ≡ ok tt
        → require_success sv (charge req.payment_id req.amount req.method) ≡ ok tt
        → Prepared w (
            order_payment_processed_event stamp order_id
              (agg.version + 1)
              req.payment_id
              req.amount
              req.method)
    ship :
        (stamp : Stamp) (order_id : String) (req : ShipOrderRequest) (agg : OrderAggregate F)
        → (load_aggregate sv order_id w).0 ≡ ok agg
        → assert_can_ship agg ≡ ok tt
        → Prepared w
            (order_shipped_event stamp order_id (agg.version + 1) req.tracking_id req.carrier)
    cancel :
        (stamp : Stamp) (order_id : String) (req : CancelOrderRequest) (agg : OrderAggregate F)
        → (load_aggregate sv order_id w).0 ≡ ok agg
        → assert_can_cancel agg ≡ ok tt
        → Prepared w (order_cancelled_event stamp order_id (agg.version + 1) req.reason)

  -- A prepared event is the next of its order in the store that it was prepared on.
  pub Prepared-IsNext :
      {w : World sv} {e : Event F} → Prepared w e → IsLegal (docs_of sv w) → IsNext e (docs_of sv w)
  Prepared-IsNext {w} (add stamp order_id req agg loaded passed) legal =
      IsNext-guarded sv stamp order_id _ (docs_of sv w) agg _
        (load_aggregate-Loaded sv order_id w agg legal loaded) (guards_decide agg).0 passed
  Prepared-IsNext {w} (confirm stamp order_id agg loaded passed) legal =
      IsNext-guarded sv stamp order_id _ (docs_of sv w) agg _
        (load_aggregate-Loaded sv order_id w agg legal loaded) (guards_decide agg).1 passed
  Prepared-IsNext {w} (pay stamp order_id req agg loaded passed _) legal =
      IsNext-guarded sv stamp order_id _ (docs_of sv w) agg _
        (load_aggregate-Loaded sv order_id w agg legal loaded) (guards_decide agg).2 passed
  Prepared-IsNext {w} (ship stamp order_id req agg loaded passed) legal =
      IsNext-guarded sv stamp order_id _ (docs_of sv w) agg _
        (load_aggregate-Loaded sv order_id w agg legal loaded) (guards_decide agg).3 passed
  Prepared-IsNext {w} (cancel stamp order_id req agg loaded passed) legal =
      IsNext-guarded sv stamp order_id _ (docs_of sv w) agg _
        (load_aggregate-Loaded sv order_id w agg legal loaded) (guards_decide agg).4 passed

  -- The services, and the events that handlers have made and not yet appended.
  pub record System : Type 0 where
    pub world : World sv
    pub pending : List (Event F)

  -- One step of some handler.
  pub data Step (sys : System) : System → Type 0 where
    -- `create_order` looks its key up
    look_key :
        (req : CreateOrderRequest)
        → Step sys (record sys {
          world = (on_bus (on_redis (sv.redis.get (idem_cache_key sv req))) sys.world).1;
        })
    -- for a key that is mapped, it reads the version
    latest :
        (order_id : String)
        → Step sys (record sys {
          world = record {
            mongo = (get_latest_version sv.mongo order_id sys.world.mongo).1;
            bus = sys.world.bus;
          };
        })
    -- for any other, it draws an order id, which no stored event has, and makes an event
    draw :
        (stamp : Stamp) (order_id : String) (req : CreateOrderRequest)
        → history order_id (docs_of sv sys.world) ≡ []
        → Step sys (record sys {
          pending =
              order_created_event sv.float stamp order_id req.customer_id req.customer_email
              ∷ sys.pending;
        })
    -- and in the end it maps the key
    map_key :
        (req : CreateOrderRequest) (order_id : String)
        → Step sys (record sys {
          world =
              (on_bus
                (on_redis (sv.redis.setex (idem_cache_key sv req) 86400 order_id))
                sys.world).1;
        })
    -- a handler loads its order, and goes no further
    load :
        (order_id : String)
        → Step sys (record sys { world = (load_aggregate sv order_id sys.world).1 })
    -- a handler loads its order and makes an event
    prepare :
        (order_id : String) (e : Event F)
        → Prepared sys.world e
        → Step sys
            (record { world = (load_aggregate sv order_id sys.world).1; pending = e ∷ sys.pending })
    store :
        (e : Event F) (before after : List (Event F))
        → sys.pending ≡ before ++ e ∷ after
        → Step sys (record {
          world = record { mongo = (append sv.mongo e sys.world.mongo).1; bus = sys.world.bus };
          pending = before ++ after;
        })
    send :
        (e : Event F)
        → Step sys (record {
          world = record {
            mongo = sys.world.mongo;
            bus = (publish sv.redis sv.kafka e sys.world.bus).1;
          };
          pending = sys.pending;
        })

  pub data Reach (start : System) : System → Type 0 where
    here : Reach start start
    next : {s t : System} → Reach start s → Step s t → Reach start t
