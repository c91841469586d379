-- ===== src/Projection/Refinement.antt =====
-- The projection of a whole history against the aggregate that is rebuilt from it.
use event_sourcing_cqrs.Prelude.{
  ℕ, suc, String, ◌≡◌, ◌≢◌, refl, sym, ap, ◌∙◌, subst, Option, none, some, some-injective, List, [],
  ◌∷◌, map, foldl, arith,
}
use event_sourcing_cqrs.Float.{Float}
use event_sourcing_cqrs.Events.{Event, EventType, event_type, order_created}
use event_sourcing_cqrs.Exec.{ok}
use event_sourcing_cqrs.Numeric.{Numeric}
use event_sourcing_cqrs.Aggregate.{OrderAggregate, new_aggregate, apply, rebuild_from_events}
use event_sourcing_cqrs.Aggregate.Order.{rebuild_from_events-sorted}
use event_sourcing_cqrs.Aggregate.Lifecycle.{Stage, absent, standing, advance, walk, lifecycle}
use event_sourcing_cqrs.Aggregate.Histories.{walk-some, walk-IsSortedFrom, advance-ne-absent}
use event_sourcing_cqrs.ReadModel.{Tables, find_order}
use event_sourcing_cqrs.Projection.{project, ◌>>=◌, bind_some}
use event_sourcing_cqrs.Projection.Agreement.{Shows, project-Shows, project-created}

-- The events of a list of projections, each with the clock reading of its transaction.
abbrev pub events_of : {F : Type 0} → List (ℕ × Event F) → List (Event F)
events_of = map (λ p. p.1)

-- Every event is of the order.
abbrev pub AllOf : {F : Type 0} → String → List (ℕ × Event F) → Type 0
AllOf oid [] = Unit
AllOf oid (p ∷ ps) = (p.1.aggregate_id ≡ oid) × AllOf oid ps

pub only_absent :
    (stage next : Stage) (t : EventType)
    → stage ≢ absent
    → advance stage t ≡ some next
    → t ≢ order_created
unfolding advance
only_absent absent next t h m = absurd (h refl)
only_absent (standing s b) next t h m = λ first. ground arith

pub first_created :
    (next : Stage) (t : EventType) → advance absent t ≡ some next → t ≡ order_created
unfolding advance
first_created next t m = ground arith

module _ {F N : Type 0} (numeric : Numeric F N) where
  -- The transactions of the consumer, one event after another.
  unfoldable pub project_all : List (ℕ × Event F) → Tables N → Option (Tables N)
  project_all [] t = some t
  project_all ((now, e) ∷ rest) t = project numeric now e t >>= project_all rest

module _ {F N : Type 0} (float : Float F) (numeric : Numeric F N) where
  project_all-Shows :
      (oid : String) (stage : Stage) (n : ℕ) (timed : List (ℕ × Event F)) (final : Stage × ℕ)
      (t t' : Tables N) (agg : OrderAggregate F)
      → AllOf oid timed
      → stage ≢ absent
      → foldl walk (some (stage, n)) (events_of timed) ≡ some final
      → Shows t oid agg
      → project_all numeric timed t ≡ some t'
      → Shows t' oid (foldl (apply float) agg (events_of timed))
  unfolding project_all
  project_all-Shows oid stage n [] final t t' agg all started leads shown h =
      subst (λ tables. Shows tables oid agg) (some-injective t t' h) shown
  project_all-Shows oid stage n ((now, e) ∷ rest) final t t' agg (own, all) started leads shown h =
      let (next, moved, _, later) = walk-some stage n e (events_of rest) final leads in
      let (t₁, projected, done) = bind_some (project numeric now e t) _ h in
      let late = only_absent stage next (event_type e) started moved in
      let shown₁ =
        project-Shows float numeric now e t t₁ agg late (subst (λ o. Shows t o agg) (sym own) shown)
          projected in
      project_all-Shows oid next (suc n) rest final t₁ t' (apply float agg e) all
        (λ gone. advance-ne-absent stage (event_type e) (moved ∙ ap some gone)) later
        (subst (λ o. Shows t₁ o (apply float agg e)) own shown₁) done

  -- The history of one order follows the lifecycle, the tables hold no row of the order, and
  -- every event of it is projected in turn without an exception. Then the tables hold a row of
  -- the order that agrees with the aggregate rebuilt from those events: in its id, status,
  -- version, customer, payment and tracking.
  pub project_all-agrees :
      (now : ℕ) (e : Event F) (rest : List (ℕ × Event F)) (final : Stage × ℕ) (t t' : Tables N)
      → AllOf e.aggregate_id rest
      → lifecycle (e ∷ events_of rest) ≡ some final
      → find_order e.aggregate_id t.orders ≡ none
      → project_all numeric ((now, e) ∷ rest) t ≡ some t'
      → (agg : OrderAggregate F) × (rebuild_from_events float (e ∷ events_of rest) ≡ ok agg)
        × Shows t' e.aggregate_id agg
  unfolding project_all lifecycle
  project_all-agrees now e rest final t t' all leads missing h =
      let (next, moved, _, later) = walk-some absent 0 e (events_of rest) final leads in
      let (t₁, projected, done) = bind_some (project numeric now e t) _ h in
      let first = first_created next (event_type e) moved in
      let shown = project-created float numeric now e t t₁ first missing projected in
      (
        foldl (apply float) (new_aggregate float e.aggregate_id) (e ∷ events_of rest),
        rebuild_from_events-sorted float e (events_of rest)
            (walk-IsSortedFrom absent 0 (e ∷ events_of rest) final leads),
        project_all-Shows e.aggregate_id next 1 rest final t₁ t' _ all
            (λ gone. advance-ne-absent absent (event_type e) (moved ∙ ap some gone)) later shown
            done,
      )
