-- ===== src/Commands/Create.antt =====
-- `create_order` and the stored histories.
use event_sourcing_cqrs.Prelude.{
  String, ◌≡◌, refl, sym, inl, inr, subst, Option, none, some, List, [],
}
use event_sourcing_cqrs.Events.{Stamp, order_created_event}
use event_sourcing_cqrs.Exec.{Result-cases}
use event_sourcing_cqrs.Aggregate.Lifecycle.{absent, advance, lifecycle}
use event_sourcing_cqrs.EventStore.{Document, get_latest_version, of_aggregate, version_key}
use event_sourcing_cqrs.EventStore.History.{IsLegal, IsNext, history}
use event_sourcing_cqrs.Schemas.{CreateOrderRequest}
use event_sourcing_cqrs.Commands.{
  Services, World, create_order, create_new, respond_cached, create_unless_cached, cached_order,
  idem_cache_key, record_event,
}
use event_sourcing_cqrs.Commands.Legal.{docs_of}
use event_sourcing_cqrs.Commands.Recorded.{record_event-Recorded, Recorded-IsLegal}

module _ {F : Type 0} (sv : Services F) where
  -- The first event of an order that is not stored is the next of its order.
  pub IsNext-created :
      (stamp : Stamp) (order_id customer_id customer_email : String) (docs : List (Document F))
      → history order_id docs ≡ []
      → IsNext (order_created_event sv.float stamp order_id customer_id customer_email) docs
  unfolding advance lifecycle
  IsNext-created stamp order_id customer_id customer_email docs unused = record {
    stage = absent;
    next = _;
    version = 0;
    stands = rw unused;
    moves = refl;
    counts = refl;
  }

  respond_cached-keeps :
      (order_id : String) (w : World sv)
      → (docs_of sv (respond_cached sv order_id w).1 ≡ docs_of sv w)
  unfolding respond_cached get_latest_version
  respond_cached-keeps order_id w =
      elim (Result-cases (sv.mongo.find_last (of_aggregate order_id) version_key w.mongo).0) [
        | inl (_, e) ↦ rw e (sv.mongo.find_last_keeps (of_aggregate order_id) version_key w.mongo)
        | inr (_, e) ↦ rw e (sv.mongo.find_last_keeps (of_aggregate order_id) version_key w.mongo)
      ]

  create_new-mongo :
      (stamp : Stamp) (order_id : String) (req : CreateOrderRequest) (w : World sv)
      → (create_new sv stamp order_id req w).1.mongo
        ≡ (record_event sv
            (order_created_event sv.float stamp order_id req.customer_id req.customer_email)
            "Order created"
            w).1.mongo
  unfolding create_new
  create_new-mongo stamp order_id req w =
      let e = order_created_event sv.float stamp order_id req.customer_id req.customer_email in
      elim (Result-cases (record_event sv e "Order created" w).0) [
        | inl (response, done) ↦ rw done (
            let b = (record_event sv e "Order created" w).1.bus in
            elim (Result-cases (sv.redis.setex (idem_cache_key sv req) 86400 order_id b.redis).0) [
              | inl (_, r) ↦ rw r
              | inr (_, r) ↦ rw r
            ])
        | inr (_, failed) ↦ rw failed
      ]

  create_unless_cached-IsLegal :
      (stamp : Stamp) (order_id : String) (req : CreateOrderRequest) (known : Option String)
      (w : World sv)
      → IsLegal (docs_of sv w)
      → history order_id (docs_of sv w) ≡ []
      → IsLegal (docs_of sv (create_unless_cached sv stamp order_id req known w).1)
  create_unless_cached-IsLegal stamp order_id req (some known) w legal unused =
      rw (respond_cached-keeps known w) legal
  create_unless_cached-IsLegal stamp order_id req none w legal unused =
      subst (λ s. IsLegal (sv.mongo.docs s)) (sym (create_new-mongo stamp order_id req w))
        (Recorded-IsLegal
          (record_event-Recorded sv order_id _ "Order created" w (docs_of sv w) refl refl (
            IsNext-created stamp order_id req.customer_id req.customer_email (docs_of sv w) unused))
          legal)

  -- On legal histories, and with an order id that no stored event has, `create_order` leaves
  -- the histories legal, however it ends.
  pub create_order-IsLegal :
      (stamp : Stamp) (order_id : String) (req : CreateOrderRequest) (w : World sv)
      → IsLegal (docs_of sv w)
      → history order_id (docs_of sv w) ≡ []
      → IsLegal (docs_of sv (create_order sv stamp order_id req w).1)
  unfolding create_order
  create_order-IsLegal stamp order_id req w legal unused =
      elim (Result-cases (sv.redis.get (idem_cache_key sv req) w.bus.redis).0) [
        | inl (cached, e) ↦ rw e (
            create_unless_cached-IsLegal stamp order_id req (cached_order sv cached) _ legal unused)
        | inr (_, e) ↦ rw e legal
      ]
