-- ===== src/Aggregate/Totals.antt =====
-- The items and the total of a rebuilt aggregate.
use event_sourcing_cqrs.Prelude.{◌≡◌, refl, ap, subst, List, [], ◌∷◌, ◌++◌, map, foldl, sort_by}
use mathlib.Core.List.{append_assoc, append-nil, foldl-append, map-append}
use event_sourcing_cqrs.Float.{Float}
use event_sourcing_cqrs.Events.{LineItem, Payload, item, Event}
use event_sourcing_cqrs.Exec.{ok, ok-injective}
use event_sourcing_cqrs.Aggregate.{
  OrderAggregate, new_aggregate, apply_payload, apply, rebuild_from_events,
}
use event_sourcing_cqrs.Aggregate.Order.{version_of}

-- The line that an event adds to the order, if any.
abbrev pub added_lines : {F : Type 0} → Payload F → List (LineItem F)
added_lines (item line) = line ∷ []
added_lines _ = []

-- The lines that a history adds, in its order.
pub lines_of : {F : Type 0} → List (Event F) → List (LineItem F)
lines_of [] = []
lines_of (e ∷ es) = added_lines e.payload ++ lines_of es

module _ {F : Type 0} (float : Float F) where
  -- Python's `sum` of the line totals, from 0.0 and from the left.
  pub sum_of_lines : List (LineItem F) → F
  sum_of_lines lines = foldl float.add float.zero (map (λ l. l.line_total) lines)

  sum_of_lines-append :
      (lines : List (LineItem F)) (l : LineItem F)
      → sum_of_lines (lines ++ l ∷ []) ≡ float.add (sum_of_lines lines) l.line_total
  unfolding sum_of_lines
  sum_of_lines-append lines l = simp (map-append, foldl-append)

  -- The items are `lines`, and the total is their sum.
  pub record Holds (lines : List (LineItem F)) (agg : OrderAggregate F) : Type 0 where
    pub items_eq : agg.items ≡ lines
    pub total_eq : agg.total_amount ≡ sum_of_lines lines

  apply_payload-Holds :
      (lines : List (LineItem F)) (agg : OrderAggregate F) (p : Payload F)
      → Holds lines agg
      → Holds (lines ++ added_lines p) (apply_payload float agg p)
  unfolding apply_payload
  apply_payload-Holds lines agg (item line) h = record {
    items_eq = ap (λ ls. ls ++ line ∷ []) h.items_eq;
    total_eq = rw (sum_of_lines-append, h.total_eq);
  }
  apply_payload-Holds lines agg _ h =
      rw append-nil (record { items_eq = h.items_eq; total_eq = h.total_eq })

  replay-Holds :
      (lines : List (LineItem F)) (agg : OrderAggregate F) (es : List (Event F))
      → Holds lines agg
      → Holds (lines ++ lines_of es) (foldl (apply float) agg es)
  unfolding lines_of apply
  replay-Holds lines agg [] h = rw append-nil h
  replay-Holds lines agg (e ∷ es) h = rw (← append_assoc) (
      replay-Holds (lines ++ added_lines e.payload) (apply float agg e) es (
        apply_payload-Holds lines _ e.payload
          (record { items_eq = h.items_eq; total_eq = h.total_eq })))

  -- A rebuilt order holds the lines of its item events, by version, and its total is the sum of
  -- their line totals from the left.
  pub rebuild_from_events-Holds :
      (es : List (Event F)) (agg : OrderAggregate F)
      → rebuild_from_events float es ≡ ok agg
      → Holds (lines_of (sort_by version_of es)) agg
  unfolding rebuild_from_events sum_of_lines
  rebuild_from_events-Holds [] agg h = cc
  rebuild_from_events-Holds (e ∷ es) agg h =
      subst (Holds (lines_of (sort_by version_of (e ∷ es)))) (ok-injective h) (
        replay-Holds [] (new_aggregate float e.aggregate_id) _
          (record { items_eq = refl; total_eq = refl }))
