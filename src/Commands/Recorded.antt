-- ===== src/Commands/Recorded.antt =====
-- What a handler of api/routers/command_router.py records, part by part.
use event_sourcing_cqrs.Prelude.{
  ◌+◌, String, ◌≡◌, ◌≢◌, refl, sym, ap, ◌∙◌, inl, inr, List, [], ◌∷◌, ◌++◌, arith,
}
use event_sourcing_cqrs.Events.{Event, Stamp, Payload, payload_type, base_event}
use event_sourcing_cqrs.Exec.{Exec, Result, ok, err, Result-cases, ok-injective, lift, ◌>>=◌, ◌>>◌}
use event_sourcing_cqrs.Aggregate.{OrderAggregate}
use event_sourcing_cqrs.Aggregate.Lifecycle.{advance, stage_of, passes, is_some}
use event_sourcing_cqrs.EventStore.{append, Document}
use event_sourcing_cqrs.EventStore.History.{IsLegal, IsLegal-next, IsNext, new_document}
use event_sourcing_cqrs.EventStore.Append.{append_outcome, append_returns}
use event_sourcing_cqrs.Publisher.{publish}
use event_sourcing_cqrs.Schemas.{CommandResponse}
use event_sourcing_cqrs.Commands.{Services, World, load_aggregate, record_event}
use event_sourcing_cqrs.Commands.Load.{Loaded, load_aggregate-keeps, load_aggregate-Loaded}
use event_sourcing_cqrs.Commands.Legal.{docs_of, IsNext-guarded}

module _ {F : Type 0} where
  -- A response that names the event.
  pub record Answers (response : CommandResponse) (e : Event F) : Type 0 where
    pub event_id : response.event_id ≡ e.event_id
    pub aggregate_id : response.aggregate_id ≡ e.aggregate_id
    pub aggregate_version : response.aggregate_version ≡ e.aggregate_version

  -- The documents before a command on the order, its result, and the documents after it.
  pub data Recorded (order_id : String) (docs : List (Document F)) (res : Result CommandResponse)
      (docs' : List (Document F)) : Type 0 where
    -- nothing is stored, and the command has not returned
    unchanged :
        docs' ≡ docs
        → ((response : CommandResponse) → res ≢ ok response)
        → Recorded order_id docs res docs'
    -- one event is stored, the next of the order, and a response names it
    stored :
        (e : Event F)
        → e.aggregate_id ≡ order_id
        → IsNext e docs
        → docs' ≡ docs ++ new_document e ∷ []
        → ((response : CommandResponse) → res ≡ ok response → Answers response e)
        → Recorded order_id docs res docs'

  pub Recorded-IsLegal :
      {order_id : String} {docs docs' : List (Document F)} {res : Result CommandResponse}
      → Recorded order_id docs res docs'
      → IsLegal docs
      → IsLegal docs'
  Recorded-IsLegal (unchanged same _) legal = rw same legal
  Recorded-IsLegal {docs} (stored e _ next after _) legal =
      rw after (IsLegal-next e docs legal next)

module _ {F : Type 0} (sv : Services F) (order_id : String) where
  -- What a call of a handler, or of a part of one, records over `docs`.
  abbrev pub Records : List (Document F) → Exec (World sv) CommandResponse → World sv → Type 0
  Records docs m w = Recorded order_id docs (m w).0 (docs_of sv (m w).1)

  pub record_event-Recorded :
      (e : Event F) (message : String) (w : World sv) (docs : List (Document F))
      → e.aggregate_id ≡ order_id
      → docs_of sv w ≡ docs
      → IsNext e docs
      → Records docs (record_event sv e message) w
  unfolding record_event
  record_event-Recorded e message w docs own same next =
      elim (Result-cases (append sv.mongo e w.mongo).0) [
        | inr (_, refused) ↦ elim (append_outcome sv.mongo e w.mongo) [
          | inl kept ↦ rw refused (unchanged (kept ∙ same) λ response h. ground (arith, h))
          | inr (_, after) ↦
              rw refused (stored e own next (rw same at after) λ response h. ground (arith, h))
        ]
        | inl (_, done) ↦
            let (_, after) = append_returns sv.mongo e w.mongo done in
            elim (Result-cases (publish sv.redis sv.kafka e w.bus).0) [
              | inr (_, lost) ↦
                  rw (done, lost)
                    (stored e own next (rw same at after) λ response h. ground (arith, h))
              | inl (_, sent) ↦
                  rw (done, sent)
                    (stored e own next (rw same at after) λ response h.
                      let is = ok-injective h in
                      record {
                        event_id = sym (ap (λ r. r.event_id) is);
                        aggregate_id = sym (ap (λ r. r.aggregate_id) is);
                        aggregate_version = sym (ap (λ r. r.aggregate_version) is);
                      })
            ]
      ]

  pub load_then-Recorded :
      (w : World sv) (body : OrderAggregate F → Exec (World sv) CommandResponse)
      → IsLegal (docs_of sv w)
      → ((agg : OrderAggregate F) (w' : World sv)
          → docs_of sv w' ≡ docs_of sv w
          → Loaded sv order_id (docs_of sv w) agg
          → Records (docs_of sv w) (body agg) w')
      → Records (docs_of sv w) (load_aggregate sv order_id >>= body) w
  load_then-Recorded w body legal go =
      let kept = (load_aggregate-keeps sv order_id w).0 in
      elim (Result-cases (load_aggregate sv order_id w).0) [
        | inl (agg, e) ↦ rw e (
            go agg (load_aggregate sv order_id w).1 kept
              (load_aggregate-Loaded sv order_id w agg legal e))
        | inr (_, e) ↦ rw e (unchanged kept λ response h. ground (arith, h))
      ]

  pub guard_then-Recorded :
      (guard : Result (Unit {0})) (docs : List (Document F)) (w : World sv)
      (m : Exec (World sv) CommandResponse)
      → docs_of sv w ≡ docs
      → (guard ≡ ok tt → Records docs m w)
      → Records docs (lift guard >> m) w
  guard_then-Recorded (ok _) docs w m same go = go refl
  guard_then-Recorded (err _) docs w m same go = unchanged same λ response h. ground (arith, h)

  -- A handler's last part: the guard, then the event that it allows.
  pub guarded-Recorded :
      (stamp : Stamp) (payload : Payload F) (message : String) (guard : Result (Unit {0}))
      (agg : OrderAggregate F) (docs : List (Document F)) (w : World sv)
      → docs_of sv w ≡ docs
      → Loaded sv order_id docs agg
      → passes guard ≡ is_some (advance (stage_of agg) (payload_type payload))
      → guard ≡ ok tt
      → Records docs
          (record_event sv (base_event stamp order_id (agg.version + 1) payload) message)
          w
  guarded-Recorded stamp payload message guard agg docs w same loaded decides passed =
      record_event-Recorded _ message w docs refl same
        (IsNext-guarded sv stamp order_id payload docs agg guard loaded decides passed)
