-- ===== src/EventStore/History.antt =====
-- The stored events of one order, and the stores in which every order follows the lifecycle.
use mathlib.Core.List.{foldl-append, map-append, append-nil}
use event_sourcing_cqrs.Prelude.{
  ℕ, suc, ◌≡◌, refl, sym, ap, ◌∙◌, subst, Bool, true, false, ◌||◌, none, some, List, [], ◌∷◌, ◌++◌,
  map, arith, select, select-append, String, str_eq, eq_iff, inl, inr, Bool-cases, List-cases,
}
use event_sourcing_cqrs.Events.{Event, event_type}
use event_sourcing_cqrs.Services.Collection.{clashes}
use event_sourcing_cqrs.EventStore.{Document, same_index_key, of_aggregate}
use event_sourcing_cqrs.Aggregate.Lifecycle.{Stage, absent, advance, lifecycle}
use event_sourcing_cqrs.Aggregate.Histories.{walk-some}

abbrev pub event_of : {F : Type 0} → Document F → Event F
event_of d = d.event

-- The events of one order, in the order in which they were stored.
unfoldable pub history : {F : Type 0} → String → List (Document F) → List (Event F)
history order_id docs = map event_of (select (of_aggregate order_id) docs)

-- A new document.
abbrev pub new_document : {F : Type 0} → Event F → Document F
new_document e = record { event = e; expires_at = none }

module _ {F : Type 0} where
  -- The history of an order leads somewhere.
  abbrev pub Leads : List (Document F) → String → Type 0
  Leads docs order_id = (end : Stage × ℕ) × (lifecycle (history order_id docs) ≡ some end)

  -- The history of every order follows the lifecycle, with versions that count from 1.
  pub record IsLegal (docs : List (Document F)) : Type 0 where
    pub leads : (order_id : String) → Leads docs order_id

  -- An event that is the next move of its order in `docs`.
  pub record IsNext (e : Event F) (docs : List (Document F)) : Type 0 where
    pub stage : Stage
    pub next : Stage
    pub version : ℕ
    pub stands : lifecycle (history e.aggregate_id docs) ≡ some (stage, version)
    pub moves : advance stage (event_type e) ≡ some next
    pub counts : e.aggregate_version ≡ suc version

  history-append :
      (order_id : String) (xs ys : List (Document F))
      → history order_id (xs ++ ys) ≡ history order_id xs ++ history order_id ys
  unfolding history
  history-append order_id xs ys = simp (select-append, map-append)

  history-other :
      (order_id : String) (d : Document F) (docs : List (Document F))
      → str_eq d.event.aggregate_id order_id ≡ false
      → history order_id (docs ++ d ∷ []) ≡ history order_id docs
  unfolding history select
  history-other order_id d docs h =
      simp (select-append, map-append, append-nil) (rw h (rw append-nil))

  history-own :
      (d : Document F) (docs : List (Document F))
      → history d.event.aggregate_id (docs ++ d ∷ [])
        ≡ history d.event.aggregate_id docs ++ d.event ∷ []
  unfolding history select
  history-own d docs =
      simp (select-append, map-append)
        (rw ((eq_iff d.event.aggregate_id d.event.aggregate_id).1 refl))

  pub IsLegal-nil : IsLegal []
  unfolding history lifecycle select
  IsLegal-nil = record { leads = λ order_id. ((absent, 0), refl) }

  -- Where the history of an order leads once its next event is stored.
  lifecycle-next :
      (e : Event F) (docs : List (Document F)) (next : IsNext e docs)
      → lifecycle (history e.aggregate_id (docs ++ new_document e ∷ []))
        ≡ some (next.next, suc next.version)
  unfolding lifecycle
  lifecycle-next e docs next =
      simp (history-own, foldl-append) (rw next.stands (ground (arith, next.moves, next.counts)))

  -- Storing the next event of an order keeps every history legal.
  pub IsLegal-next :
      (e : Event F) (docs : List (Document F))
      → IsLegal docs
      → IsNext e docs
      → IsLegal (docs ++ new_document e ∷ [])
  IsLegal-next e docs legal next = record {
    leads = λ order_id. elim (Bool-cases (str_eq e.aggregate_id order_id)) [
      | inl same ↦
          subst (Leads (docs ++ new_document e ∷ [])) ((eq_iff _ _).0 same)
            (_, lifecycle-next e docs next)
      | inr other ↦ rw (history-other order_id (new_document e) docs other) (legal.leads order_id)
    ];
  }

  -- The first elements of two equal lists.
  abbrev head_or : Event F → List (Event F) → Event F
  head_or e [] = e
  head_or e (x ∷ _) = x

  cons_head : {e f : Event F} {es fs : List (Event F)} → e ∷ es ≡ f ∷ fs → e ≡ f
  cons_head {e} h = ap (head_or e) h

  clashes-append :
      (clash : Document F → Document F → Bool) (d : Document F) (xs ys : List (Document F))
      → clashes clash d (xs ++ ys) ≡ (clashes clash d xs || clashes clash d ys)
  clashes-append clash d [] ys = refl
  clashes-append clash d (x ∷ xs) ys = ground (arith, clashes-append clash d xs ys)

  -- A stored event of the same order and version clashes.
  history-clashes :
      (e f : Event F) (fs : List (Event F)) (docs : List (Document F))
      → history e.aggregate_id docs ≡ f ∷ fs
      → f.aggregate_version ≡ e.aggregate_version
      → clashes same_index_key (new_document e) docs ≡ true
  unfolding history select
  history-clashes e f fs [] h v = cc
  history-clashes e f fs (d ∷ docs) h v =
      elim (Bool-cases (str_eq d.event.aggregate_id e.aggregate_id)) [
        | inl same ↦ ground (
          arith,
          eq_iff d.event.aggregate_id e.aggregate_id,
          eq_iff e.aggregate_id d.event.aggregate_id,
          same,
          cons_head (rw same at h),
        )
        | inr other ↦ ground (arith, history-clashes e f fs docs (rw other at h) v)
      ]

  stale-clashes :
      (e f : Event F) (fs : List (Event F)) (old more : List (Document F)) (next : IsNext e old)
      → IsLegal (old ++ more)
      → history e.aggregate_id more ≡ f ∷ fs
      → clashes same_index_key (new_document e) (old ++ more) ≡ true
  unfolding lifecycle
  stale-clashes e f fs old more next legal h =
      let (end, leads) = legal.leads e.aggregate_id in
      let after = simp (history-append, foldl-append) at leads in
      let (_, _, counted, _) =
        walk-some next.stage next.version f fs end (rw (next.stands, h) at after) in
      rw clashes-append (ground (arith, history-clashes e f fs more h (counted ∙ sym next.counts)))

  -- The event was the next of its order in an earlier store. If nothing in the store now has its
  -- version or its id, it is still the next.
  pub IsNext-later :
      (e : Event F) (old more : List (Document F))
      → IsNext e old
      → IsLegal (old ++ more)
      → clashes same_index_key (new_document e) (old ++ more) ≡ false
      → IsNext e (old ++ more)
  IsNext-later e old more next legal free = elim (List-cases (history e.aggregate_id more)) [
    | inl same ↦ record {
      stage = next.stage;
      next = next.next;
      version = next.version;
      stands = rw history-append (rw same (rw append-nil next.stands));
      moves = next.moves;
      counts = next.counts;
    }
    | inr (f, fs, h) ↦ cc (free, stale-clashes e f fs old more next legal h)
  ]
