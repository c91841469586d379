-- ===== src/Commands/Race/Alone.antt =====
-- A handler of api/routers/command_router.py that nothing interrupts, as steps of the interleaving.
use event_sourcing_cqrs.Prelude.{
  String, ◌≡◌, refl, inl, inr, Option, none, some, List, [], ◌∷◌, Bool-cases,
}
use event_sourcing_cqrs.Events.{Event, Stamp, order_created_event}
use event_sourcing_cqrs.Exec.{Result, ok, lift, Result-cases, ◌>>=◌, ◌>>◌}
use event_sourcing_cqrs.Aggregate.{
  OrderAggregate, assert_can_add_item, assert_can_confirm, assert_can_pay, assert_can_ship,
  assert_can_cancel,
}
use event_sourcing_cqrs.EventStore.{append, get_latest_version}
use event_sourcing_cqrs.EventStore.History.{history}
use event_sourcing_cqrs.Publisher.{publish}
use event_sourcing_cqrs.PaymentGateway.{charge}
use event_sourcing_cqrs.Schemas.{CreateOrderRequest, accepts_item, accepts_payment}
use event_sourcing_cqrs.Commands.{
  Services, World, load_aggregate, require_success, record_event, create_new, respond_cached,
  create_unless_cached, create_order, cached_order, idem_cache_key, add_item, confirm_order,
  process_payment, ship_order, cancel_order,
}
use event_sourcing_cqrs.Commands.Legal.{docs_of}
use event_sourcing_cqrs.Commands.Dispatch.{Command, items, payment, run_command}
use event_sourcing_cqrs.Commands.Race.{
  Prepared, add, confirm, pay, ship, cancel, System, look_key, latest, draw, map_key, load, prepare,
  store, send, Reach, next,
}

module _ {F : Type 0} (sv : Services F) (start : System sv) (pending : List (Event F)) where
  -- Steps lead to the world `w`, with the other handlers' events as they were.
  abbrev pub Brought : World sv → Type 0
  Brought w = Reach sv start (record { world = w; pending = pending })

  -- From an event on: it is appended and published.
  record_event-Brought :
      (e : Event F) (message : String) (w : World sv)
      → Reach sv start (record { world = w; pending = e ∷ pending })
      → Brought (record_event sv e message w).1
  unfolding record_event
  record_event-Brought e message w reached =
      let stored = next reached (store e [] pending refl) in
      elim (Result-cases (append sv.mongo e w.mongo).0) [
        | inr (_, failed) ↦ rw failed stored
        | inl (_, done) ↦
            let sent = next stored (send e) in
            elim (Result-cases (publish sv.redis sv.kafka e w.bus).0) [
              | inl (_, published) ↦ rw (done, published) sent
              | inr (_, failed) ↦ rw (done, failed) sent
            ]
      ]

  -- A handler that loads, checks, and records.
  guarded-Brought :
      (order_id : String) (guard : OrderAggregate F → Result (Unit {0}))
      (make : OrderAggregate F → Event F) (message : String) (w : World sv)
      → ((agg : OrderAggregate F)
          → (load_aggregate sv order_id w).0 ≡ ok agg
          → guard agg ≡ ok tt
          → Prepared sv w (make agg))
      → Brought w
      → Brought
          ((load_aggregate sv order_id >>= λ agg.
              lift (guard agg) >> record_event sv (make agg) message)
            w).1
  guarded-Brought order_id guard make message w prepared reached =
      elim (Result-cases (load_aggregate sv order_id w).0) [
        | inr (_, failed) ↦ rw failed (next reached (load order_id))
        | inl (agg, loaded) ↦ elim (Result-cases (guard agg)) [
          | inr (_, refused) ↦ rw (loaded, refused) (next reached (load order_id))
          | inl (_, passed) ↦
              rw (loaded, passed)
                (record_event-Brought (make agg) message _
                  (next reached (prepare order_id (make agg) (prepared agg loaded passed))))
        ]
      ]

  -- A command on an order that nothing interrupts goes by the steps of the interleaving, however it
  -- ends.
  pub run_command-Brought :
      (stamp : Stamp) (order_id : String) (c : Command F) (w : World sv)
      → Brought w
      → Brought (run_command sv stamp order_id c w).1
  unfolding add_item confirm_order process_payment ship_order cancel_order
  run_command-Brought stamp order_id (items req) w reached =
      elim (Bool-cases (accepts_item sv.float req)) [
        | inr refused ↦ rw refused reached
        | inl accepted ↦
            rw accepted
              (guarded-Brought order_id assert_can_add_item _ _ w (add stamp order_id req) reached)
      ]
  run_command-Brought stamp order_id Command.confirm w reached =
      guarded-Brought order_id assert_can_confirm _ _ w (confirm stamp order_id) reached
  run_command-Brought stamp order_id (payment req) w reached =
      elim (Bool-cases (accepts_payment sv.float req)) [
        | inr refused ↦ rw refused reached
        | inl accepted ↦ rw accepted (elim (Result-cases (load_aggregate sv order_id w).0) [
          | inr (_, failed) ↦ rw failed (next reached (load order_id))
          | inl (agg, loaded) ↦ elim (Result-cases (assert_can_pay agg)) [
            | inr (_, unready) ↦ rw (loaded, unready) (next reached (load order_id))
            | inl (_, passed) ↦
                let charged = charge req.payment_id req.amount req.method in
                elim (Result-cases (require_success sv charged)) [
                  | inr (_, declined) ↦ rw (loaded, passed, declined) (next reached (load order_id))
                  | inl (_, paid) ↦
                      rw (loaded, passed, paid)
                        (record_event-Brought _ _ _ (
                          next reached
                            (prepare order_id _ (pay stamp order_id req agg loaded passed paid))))
                ]
          ]
        ])
      ]
  run_command-Brought stamp order_id (Command.ship req) w reached =
      guarded-Brought order_id assert_can_ship _ _ w (ship stamp order_id req) reached
  run_command-Brought stamp order_id (Command.cancel req) w reached =
      guarded-Brought order_id assert_can_cancel _ _ w (cancel stamp order_id req) reached

  create_new-Brought :
      (stamp : Stamp) (order_id : String) (req : CreateOrderRequest) (w : World sv)
      → history order_id (docs_of sv w) ≡ []
      → Brought w
      → Brought (create_new sv stamp order_id req w).1
  unfolding create_new
  create_new-Brought stamp order_id req w unused reached =
      let e = order_created_event sv.float stamp order_id req.customer_id req.customer_email in
      let recorded =
        record_event-Brought e "Order created" w (next reached (draw stamp order_id req unused)) in
      let w₁ = (record_event sv e "Order created" w).1 in
      let mapping = sv.redis.setex (idem_cache_key sv req) 86400 order_id in
      elim (Result-cases (record_event sv e "Order created" w).0) [
        | inr (_, failed) ↦ rw failed recorded
        | inl (_, done) ↦
            let mapped = next recorded (map_key req order_id) in
            elim (Result-cases (mapping w₁.bus.redis).0) [
              | inl (_, set) ↦ rw (done, set) mapped
              | inr (_, failed) ↦ rw (done, failed) mapped
            ]
      ]

  unless_cached-Brought :
      (stamp : Stamp) (order_id : String) (req : CreateOrderRequest) (known : Option String)
      (w : World sv)
      → history order_id (docs_of sv w) ≡ []
      → Brought w
      → Brought (create_unless_cached sv stamp order_id req known w).1
  unfolding respond_cached
  unless_cached-Brought stamp order_id req none w unused reached =
      create_new-Brought stamp order_id req w unused reached
  unless_cached-Brought stamp order_id req (some known) w unused reached =
      let read = next reached (latest known) in
      elim (Result-cases (get_latest_version sv.mongo known w.mongo).0) [
        | inl (_, done) ↦ rw done read
        | inr (_, failed) ↦ rw failed read
      ]

  -- So does a `create_order`, with an order id that no stored event has.
  pub create_order-Brought :
      (stamp : Stamp) (order_id : String) (req : CreateOrderRequest) (w : World sv)
      → history order_id (docs_of sv w) ≡ []
      → Brought w
      → Brought (create_order sv stamp order_id req w).1
  unfolding create_order
  create_order-Brought stamp order_id req w unused reached =
      let looked = next reached (look_key req) in
      elim (Result-cases (sv.redis.get (idem_cache_key sv req) w.bus.redis).0) [
        | inr (_, failed) ↦ rw failed looked
        | inl (cached, done) ↦
            rw done
              (unless_cached-Brought stamp order_id req (cached_order sv cached) _ unused looked)
      ]
