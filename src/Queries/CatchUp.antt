-- ===== src/Queries/CatchUp.antt =====
-- From the events of an order to the answer of `get_order`: the projection of consumers/main.py and
-- the queries of api/routers/query_router.py, in any order of their calls.
use event_sourcing_cqrs.Prelude.{
  ℕ, suc, String, ◌≡◌, refl, sym, ap, ◌∙◌, subst, none, some, List, [], ◌∷◌, foldl, arith, str_eq,
  false, some-injective,
}
use event_sourcing_cqrs.Float.{Float}
use event_sourcing_cqrs.Events.{Event, event_type}
use event_sourcing_cqrs.Exec.{ok}
use event_sourcing_cqrs.Services.Postgres.{Plan}
use event_sourcing_cqrs.Services.Queue.{Queue}
use event_sourcing_cqrs.Services.Offsets.{Offsets}
use event_sourcing_cqrs.Aggregate.{OrderAggregate, new_aggregate, apply, rebuild_from_events}
use event_sourcing_cqrs.Aggregate.Order.{rebuild_from_events-sorted}
use event_sourcing_cqrs.Aggregate.Lifecycle.{Stage, absent, standing, advance, walk, lifecycle}
use event_sourcing_cqrs.Aggregate.Histories.{walk-some, walk-IsSortedFrom, advance-ne-absent}
use event_sourcing_cqrs.EventStore.{EventCollection}
use event_sourcing_cqrs.Numeric.{Numeric}
use event_sourcing_cqrs.ReadModel.{Tables, find_order}
use event_sourcing_cqrs.Projection.{project}
use event_sourcing_cqrs.Projection.Agreement.{Shows, project-Shows, project-created}
use event_sourcing_cqrs.Projection.Frame.{Untouched, project-Untouched}
use event_sourcing_cqrs.Projection.Refinement.{only_absent, first_created}
use event_sourcing_cqrs.Consumer.{DeadLetter, Sinks, Stage as Servers, try_project}
use event_sourcing_cqrs.Consumer.Attempts.{project_to_postgres_returns}
use event_sourcing_cqrs.Consumer.Try.{try_project-postgres, try_project_returns}
use event_sourcing_cqrs.Queries.{
  OrderResult, Readers, Desk, status_text, order_result, view_of, get_order,
}
use event_sourcing_cqrs.Queries.CacheAside.{get_order-tables}
use event_sourcing_cqrs.Queries.Freshness.{IsFresh, get_order-IsFresh}
use event_sourcing_cqrs.Queries.Answers.{RowReadsBack, get_order_returns}
use event_sourcing_cqrs.Queries.Invalidation.{sinks_of, try_project-IsFresh}

module _ {F N : Type 0} (float : Float F) (numeric : Numeric F N) (own : String) where
  -- The tables have of an order what the aggregate has: no row before its first event.
  abbrev Stands : Tables N → Stage → OrderAggregate F → Type 0
  Stands t absent agg = (find_order own t.orders ≡ none) × (agg ≡ new_aggregate float own)
  Stands t (standing _ _) agg = Shows t own agg

  Stands-project :
      (now : ℕ) (e : Event F) (t t' : Tables N) (stage next : Stage) (agg : OrderAggregate F)
      → e.aggregate_id ≡ own
      → advance stage (event_type e) ≡ some next
      → Stands t stage agg
      → project numeric now e t ≡ some t'
      → Stands t' next (apply float agg e)
  Stands-project now e t t' stage absent agg its moved stands h =
      absurd (advance-ne-absent stage (event_type e) moved)
  Stands-project now e t t' absent (standing st b) agg its moved (missing, fresh) h =
      let first = first_created (standing st b) (event_type e) moved in
      let none_yet = subst (λ o. find_order o t.orders ≡ none) (sym its) missing in
      let shown = project-created float numeric now e t t' first none_yet h in
      rw fresh (subst (λ o. Shows t' o (apply float (new_aggregate float o) e)) its shown)
  Stands-project now e t t' (standing su c) (standing st b) agg its moved shown h =
      let late =
        only_absent (standing su c) (standing st b) (event_type e) (λ same. ground (arith, same))
          moved in
      subst (λ o. Shows t' o (apply float agg e)) its
        (project-Shows float numeric now e t t' agg late
          (subst (λ o. Shows t o agg) (sym its) shown) h)

  Stands-Untouched :
      (t t' : Tables N) (stage : Stage) (agg : OrderAggregate F)
      → Untouched own t t'
      → Stands t stage agg
      → Stands t' stage agg
  Stands-Untouched t t' absent agg (row, _) (missing, fresh) = (row ∙ missing, fresh)
  Stands-Untouched t t' (standing _ _) agg (row, _) (r, found, agrees) = (r, row ∙ found, agrees)

-- The dictionary that a query makes shows the aggregate.
pub record Reflects {F N : Type 0} (result : OrderResult F N) (agg : OrderAggregate F)
    : Type 0 where
  pub order_id : result.order_id ≡ agg.order_id
  pub status : result.status ≡ status_text agg.status
  pub version : result.version ≡ agg.version
  pub customer_id : result.customer_id ≡ agg.customer_id
  pub customer_email : result.customer_email ≡ agg.customer_email
  pub payment_id : result.payment_id ≡ agg.payment_id
  pub tracking_id : result.tracking_id ≡ agg.tracking_id

module _ {F N J : Type 0} (r : Readers F N J) where
  Shows-Reflects :
      (own : String) (plan : Plan) (t : Tables N) (result : OrderResult F N)
      (agg : OrderAggregate F)
      → Shows t own agg
      → order_result r own plan t ≡ some result
      → Reflects result agg
  unfolding order_result
  Shows-Reflects own plan t result agg (row, found, agrees) h =
      let is = some-injective _ _ (rw found at h) in
      rw (← is) (record {
        order_id = agrees.order_id;
        status = ap status_text agrees.status;
        version = agrees.version;
        customer_id = agrees.customer_id;
        customer_email = agrees.customer_email;
        payment_id = agrees.payment_id;
        tracking_id = agrees.tracking_id;
      })

  Stands-Reflects :
      (float : Float F) (own : String) (plan : Plan) (t : Tables N) (result : OrderResult F N)
      (stage : Stage) (agg : OrderAggregate F)
      → Stands float r.numeric own t stage agg
      → order_result r own plan t ≡ some result
      → Reflects result agg
  unfolding order_result
  Stands-Reflects float own plan t result absent agg (missing, _) h = ground (arith, missing, h)
  Stands-Reflects float own plan t result (standing _ _) agg shown h =
      Shows-Reflects own plan t result agg shown h

module _ {F N J : Type 0} (float : Float F) (r : Readers F N J) (mongo : EventCollection F)
    (sqs : Queue (DeadLetter F)) (group : Offsets) (own : String) where
  abbrev pub servers : Sinks F N
  servers = sinks_of r mongo sqs group

  -- The router's part of the servers' state.
  abbrev pub desk_of : Servers servers → Desk r
  desk_of s = record { postgres = s.postgres; redis = s.redis }

  -- The state after a query of the order `oid`.
  abbrev pub asked_of : String → Servers servers → Servers servers
  asked_of oid s =
      let d = (get_order r oid (desk_of s)).1 in record s { postgres = d.postgres; redis = d.redis }

  -- The `try` blocks of the consumer, all of which return, for the listed events of the order `own`
  -- in turn, between other orders' events and queries of any orders.
  pub data CatchesUp : List (Event F) → Servers servers → Servers servers → Type 0 where
    idle : (s : Servers servers) → CatchesUp [] s s
    projected :
        (now n : ℕ) (e : Event F) (es : List (Event F)) (s s' : Servers servers)
        → e.aggregate_id ≡ own
        → (try_project servers now n e s).0 ≡ ok tt
        → CatchesUp es (try_project servers now n e s).1 s'
        → CatchesUp (e ∷ es) s s'
    other :
        (now n : ℕ) (e : Event F) (es : List (Event F)) (s s' : Servers servers)
        → str_eq e.aggregate_id own ≡ false
        → (try_project servers now n e s).0 ≡ ok tt
        → CatchesUp es (try_project servers now n e s).1 s'
        → CatchesUp es s s'
    asked :
        (oid : String) (es : List (Event F)) (s s' : Servers servers)
        → CatchesUp es (asked_of oid s) s'
        → CatchesUp es s s'

  abbrev tables_of : Servers servers → Tables N
  tables_of s = r.postgres.tables s.postgres

  abbrev AllFresh : Servers servers → Type 1
  AllFresh s = (oid : String) → IsFresh r (tables_of s) s.redis oid

  projected-tables :
      (now n : ℕ) (e : Event F) (s : Servers servers)
      → (try_project servers now n e s).0 ≡ ok tt
      → project r.numeric now e (tables_of s) ≡ some (tables_of (try_project servers now n e s).1)
  projected-tables now n e s h =
      project_to_postgres_returns servers now e s.postgres (try_project_returns servers now n e s h)
      ∙ ap (λ p. some (r.postgres.tables p)) (sym (try_project-postgres servers now n e s))

  CatchesUp-Stands :
      (es : List (Event F)) (s s' : Servers servers) (stage : Stage) (m : ℕ) (final : Stage × ℕ)
      (agg : OrderAggregate F)
      → CatchesUp es s s'
      → foldl walk (some (stage, m)) es ≡ some final
      → Stands float r.numeric own (tables_of s) stage agg
      → AllFresh s
      → Stands float r.numeric own (tables_of s') final.0 (foldl (apply float) agg es) × AllFresh s'
  CatchesUp-Stands _ s s' stage m final agg (idle _) leads stands fresh =
      subst (λ (f : Stage × ℕ). Stands float r.numeric own (tables_of s) f.0 agg × AllFresh s)
        (some-injective _ _ leads) (stands, fresh)
  CatchesUp-Stands _ s s' stage m final agg (projected now n e es _ _ its done rest) leads stands
        fresh =
      let (next, moved, _, later) = walk-some stage m e es final leads in
      CatchesUp-Stands es _ s' next (suc m) final (apply float agg e) rest later
        (Stands-project float r.numeric own now e _ _ stage next agg its moved stands
          (projected-tables now n e s done))
        (try_project-IsFresh r mongo sqs group now n e s done fresh)
  CatchesUp-Stands _ s s' stage m final agg (other now n e es _ _ apart done rest) leads stands
        fresh =
      CatchesUp-Stands es _ s' stage m final agg rest leads
        (Stands-Untouched float r.numeric own _ _ stage agg
          (project-Untouched r.numeric now e own _ _ apart (projected-tables now n e s done))
          stands)
        (try_project-IsFresh r mongo sqs group now n e s done fresh)
  CatchesUp-Stands _ s s' stage m final agg (asked oid es _ _ rest) leads stands fresh =
      let same = get_order-tables r oid (desk_of s) in
      CatchesUp-Stands es (asked_of oid s) s' stage m final agg rest leads (rw same stands)
        (λ other. get_order-IsFresh r oid other (desk_of s) (fresh other))

  -- At first there is no row of an order, and Redis holds of every order nothing, or the text
  -- of what the read model has. The events of the order, which follow the lifecycle, are
  -- projected one by one, between other orders' events and queries of any orders, and each
  -- `try` block returns. A `get_order` that then answers, where the JSON library reads back
  -- what it writes for the order's row, shows the aggregate rebuilt from these events: its id,
  -- status, version, customer, payment and tracking.
  pub get_order-Reflects :
      (e : Event F) (es : List (Event F)) (s s' : Servers servers) (final : Stage × ℕ) (doc : J)
      → e.aggregate_id ≡ own
      → lifecycle (e ∷ es) ≡ some final
      → find_order own (r.postgres.tables s.postgres).orders ≡ none
      → ((oid : String) → IsFresh r (r.postgres.tables s.postgres) s.redis oid)
      → CatchesUp (e ∷ es) s s'
      → RowReadsBack r own (r.postgres.tables s'.postgres)
      → (get_order r own (desk_of s')).0 ≡ ok doc
      → (agg : OrderAggregate F) × (result : OrderResult F N) × (rebuild_from_events float (e ∷ es)
          ≡ ok agg)
        × (doc ≡ r.respond (view_of r result))
        × Reflects result agg
  unfolding lifecycle
  get_order-Reflects e es s s' final doc its leads missing fresh caught codec h =
      let agg = foldl (apply float) (new_aggregate float own) (e ∷ es) in
      let (stands, fresh') =
        CatchesUp-Stands (e ∷ es) s s' absent 0 final (new_aggregate float own) caught leads
          (missing, refl) fresh in
      let (plan, result, found, answers) =
        get_order_returns r own (desk_of s') doc (fresh' own) codec h in
      let rebuilt =
        rebuild_from_events-sorted float e es (walk-IsSortedFrom absent 0 (e ∷ es) final leads) in
      (
        agg,
        result,
        rebuilt ∙ ap (λ o. ok (foldl (apply float) (new_aggregate float o) (e ∷ es))) its,
        answers,
        Stands-Reflects r float own plan _ result final.0 agg stands found,
      )
