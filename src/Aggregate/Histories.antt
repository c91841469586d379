-- ===== src/Aggregate/Histories.antt =====
-- Rebuilding a history that follows the lifecycle.
use event_sourcing_cqrs.Prelude.{
  ℕ, suc, ◌≡◌, refl, ◌∙◌, ◌≢◌, none, some, List, [], ◌∷◌, foldl, arith, ◌==◌, Option-cases,
  Bool-cases, inl, inr, IsSortedFrom,
}
use event_sourcing_cqrs.Float.{Float}
use event_sourcing_cqrs.Events.{Event, Payload, item, event_type, EventType}
use event_sourcing_cqrs.Exec.{ok}
use event_sourcing_cqrs.Aggregate.{
  OrderAggregate, new_aggregate, apply_payload, apply, rebuild_from_events,
}
use event_sourcing_cqrs.Aggregate.Order.{version_of, rebuild_from_events-sorted}
use event_sourcing_cqrs.Aggregate.Lifecycle.{
  Stage, absent, standing, advance, walk, lifecycle, stage_of, StandsAt, apply_payload-StandsAt,
}

module _ {F : Type 0} where
  walk-none : (es : List (Event F)) → foldl walk none es ≡ none
  walk-none [] = refl
  walk-none (e ∷ es) = walk-none es

  -- A step of a history, taken apart.
  pub walk-some :
      (stage : Stage) (n : ℕ) (e : Event F) (es : List (Event F)) (final : Stage × ℕ)
      → foldl walk (walk (some (stage, n)) e) es ≡ some final
      → (next : Stage) × (advance stage (event_type e) ≡ some next)
        × (e.aggregate_version ≡ suc n)
        × (foldl walk (some (next, suc n)) es ≡ some final)
  walk-some stage n e es final h = elim (Option-cases (advance stage (event_type e))) [
    | inl stuck ↦ ground (arith, walk-none es)
    | inr (next, moved) ↦ elim (Bool-cases (e.aggregate_version == suc n)) [
      | inl counted ↦ (next, moved, ground arith, ground arith)
      | inr skipped ↦ ground (arith, walk-none es)
    ]
  ]

  -- The versions of a history ascend.
  pub walk-IsSortedFrom :
      (stage : Stage) (n : ℕ) (es : List (Event F)) (final : Stage × ℕ)
      → foldl walk (some (stage, n)) es ≡ some final
      → IsSortedFrom version_of n es
  walk-IsSortedFrom stage n [] final h = tt
  walk-IsSortedFrom stage n (e ∷ es) final h =
      let (next, moved, counted, rest) = walk-some stage n e es final h in
      let sorted = walk-IsSortedFrom next (suc n) es final rest in
      (rw counted (omega arith), rw counted sorted)

pub advance-ne-absent : (stage : Stage) (t : EventType) → advance stage t ≢ some absent
unfolding advance
advance-ne-absent stage t h = ground arith

module _ {F : Type 0} (float : Float F) where
  apply_payload-order_id :
      (agg : OrderAggregate F) (p : Payload F) → (apply_payload float agg p).order_id ≡ agg.order_id
  unfolding apply_payload
  apply_payload-order_id agg (item _) = refl
  apply_payload-order_id agg _ = refl

  replay-StandsAt :
      (agg : OrderAggregate F) (stage : Stage) (n : ℕ) (es : List (Event F)) (final : Stage) (m : ℕ)
      → StandsAt float agg stage n
      → foldl walk (some (stage, n)) es ≡ some (final, m)
      → StandsAt float (foldl (apply float) agg es) final m
  unfolding apply
  replay-StandsAt agg stage n [] final m s h = ground arith
  replay-StandsAt agg stage n (e ∷ es) final m s h =
      let (next, moved, counted, rest) = walk-some stage n e es (final, m) h in
      replay-StandsAt (apply float agg e) next (suc n) es final m
        (apply_payload-StandsAt float agg e.aggregate_version e.payload stage n next s moved
          counted)
        rest

  replay-order_id :
      (agg : OrderAggregate F) (es : List (Event F))
      → (foldl (apply float) agg es).order_id ≡ agg.order_id
  unfolding apply
  replay-order_id agg [] = refl
  replay-order_id agg (e ∷ es) =
      replay-order_id (apply float agg e) es ∙ apply_payload-order_id _ e.payload

  replay-ne-absent :
      (stage : Stage) (n : ℕ) (e : Event F) (es : List (Event F)) (final : Stage) (m : ℕ)
      → foldl walk (some (stage, n)) (e ∷ es) ≡ some (final, m)
      → final ≢ absent
  replay-ne-absent stage n e [] final m h =
      let (next, moved, counted, rest) = walk-some stage n e [] (final, m) h in
      λ gone. advance-ne-absent stage (event_type e) (cc (moved, rest, gone))
  replay-ne-absent stage n e (f ∷ es) final m h =
      let (next, moved, counted, rest) = walk-some stage n e (f ∷ es) (final, m) h in
      replay-ne-absent next (suc n) f es final m rest

  stage_of-StandsAt :
      (agg : OrderAggregate F) (stage : Stage) (n : ℕ)
      → StandsAt float agg stage n
      → stage ≢ absent
      → (stage_of agg ≡ stage) × (agg.version ≡ n)
  stage_of-StandsAt agg absent n s h = absurd (h refl)
  stage_of-StandsAt agg (standing status b) n s h = ground arith

  -- A list of events that follows the lifecycle is rebuilt without an exception, to an
  -- aggregate of their order with the status, the presence of items and the version that the
  -- lifecycle ends in.
  pub rebuild_from_events-lifecycle :
      (e : Event F) (es : List (Event F)) (final : Stage) (n : ℕ)
      → lifecycle (e ∷ es) ≡ some (final, n)
      → (agg : OrderAggregate F) × (rebuild_from_events float (e ∷ es) ≡ ok agg)
        × (stage_of agg ≡ final)
        × (agg.version ≡ n)
        × (agg.order_id ≡ e.aggregate_id)
  unfolding lifecycle
  rebuild_from_events-lifecycle e es final n h =
      let start = new_aggregate float e.aggregate_id in
      let agg = foldl (apply float) start (e ∷ es) in
      let (at_stage, at_version) =
        stage_of-StandsAt agg final n
          (replay-StandsAt start absent 0 (e ∷ es) final n (refl, refl) h)
          (replay-ne-absent absent 0 e es final n h) in
      (
        agg,
        rebuild_from_events-sorted float e es (walk-IsSortedFrom absent 0 (e ∷ es) (final, n) h),
        at_stage,
        at_version,
        replay-order_id start (e ∷ es),
      )
