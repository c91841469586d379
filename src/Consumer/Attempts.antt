-- ===== src/Consumer/Attempts.antt =====
-- `project_to_postgres`: what its attempts do to the tables.
use event_sourcing_cqrs.Prelude.{
  ℕ, zero, suc, String, ◌≡◌, refl, sym, ap, ◌∙◌, ◌⊎◌, inl, inr, some, Option-cases, arith, List, [],
  ◌∷◌,
}
use event_sourcing_cqrs.Events.{LineItem, Payload, creation, item, Event}
use event_sourcing_cqrs.Exec.{ok, Result-cases}
use event_sourcing_cqrs.Exec.Retry.{retry, retry-ok, retry-err}
use event_sourcing_cqrs.Numeric.{Numeric}
use event_sourcing_cqrs.ReadModel.{OrderRow, Tables, update_order, sum_items}
use event_sourcing_cqrs.ReadModel.Rows.{KeepsKey, update_order-update}
use event_sourcing_cqrs.Projection.{
  int4, set_order, insert_item, update_total, item_row, add_line, project_payload, project,
}
use event_sourcing_cqrs.Projection.Replay.{touched, project-again}
use event_sourcing_cqrs.Consumer.{Sinks, project_to_postgres}

module _ {F N : Type 0} (numeric : Numeric F N) (now : ℕ) where
  update_order-same :
      (oid : String) (rows : List (OrderRow N)) → update_order oid (λ r. r) rows ≡ rows
  unfolding update_order
  update_order-same oid [] = refl
  update_order-same oid (r ∷ rs) = ground (arith, update_order-same oid rs)

  -- Rows that were updated now are not changed by a new `updated_at`.
  touched-rows :
      (oid : String) (set : OrderRow N → OrderRow N) (rows : List (OrderRow N))
      → KeepsKey set
      → ((r : OrderRow N) → record (set r) { updated_at = now } ≡ set r)
      → update_order oid (λ r. record r { updated_at = now }) (update_order oid set rows)
        ≡ update_order oid set rows
  touched-rows oid set rows keeps same =
      update_order-update oid set (λ r. record r { updated_at = now }) (λ r. r) rows keeps same
      ∙ update_order-same oid (update_order oid set rows)

  set_order-touched :
      (oid : String) (set : OrderRow N → OrderRow N) (t t' : Tables N)
      → set_order oid set t ≡ some t'
      → KeepsKey set
      → ((r : OrderRow N) → record (set r) { updated_at = now } ≡ set r)
      → record t' { orders = update_order oid (λ r. record r { updated_at = now }) t'.orders } ≡ t'
  set_order-touched oid set t t' h keeps same =
      ground (arith, touched-rows oid set t.orders keeps same)

  update_total-touched :
      (oid : String) (version : ℕ) (t t' : Tables N)
      → update_total numeric now oid version t ≡ some t'
      → record t' { orders = update_order oid (λ r. record r { updated_at = now }) t'.orders } ≡ t'
  unfolding update_total
  update_total-touched oid version t t' h =
      let total = sum_items numeric oid t.order_items in
      let set = λ (r : OrderRow N). record r {
        total_amount = total;
        version = version;
        updated_at = now;
      } in
      ground (arith, touched-rows oid set t.orders (λ r. refl) (λ r. refl))

  add_line-touched :
      (oid : String) (line : LineItem F) (version : ℕ) (t t' : Tables N)
      → add_line numeric now oid line version t ≡ some t'
      → record t' { orders = update_order oid (λ r. record r { updated_at = now }) t'.orders } ≡ t'
  unfolding add_line
  add_line-touched oid line version t t' h = elim (Option-cases (item_row numeric now oid line)) [
    | inl refused ↦ ground (arith, refused, h)
    | inr (row, fits) ↦ elim (Option-cases (insert_item row t)) [
      | inl refused ↦ ground (arith, fits, refused, h)
      | inr (t₁, stored) ↦ update_total-touched oid version t₁ t' (rw stored at (rw fits at h))
    ]
  ]

  project_payload-touched :
      (oid : String) (version : ℕ) (p : Payload F) (t t' : Tables N)
      → project_payload numeric now oid version p t ≡ some t'
      → touched numeric now now oid p t' ≡ t'
  unfolding project_payload
  project_payload-touched oid version (creation c m _ _) t t' h = refl
  project_payload-touched oid version (item line) t t' h = add_line-touched oid line version t t' h
  project_payload-touched oid version _ t t' h =
      set_order-touched oid _ t t' h (λ r. refl) (λ r. refl)

  -- A projection that is repeated at the same clock reading changes nothing.
  project-twice :
      (e : Event F) (t t' : Tables N)
      → project numeric now e t ≡ some t'
      → project numeric now e t' ≡ some t'
  unfolding project
  project-twice e t t' h = elim (Option-cases (int4 e.aggregate_version)) [
    | inl refused ↦ ground (arith, refused, h)
    | inr (version, fits) ↦
        project-again numeric now now e t t' h
        ∙ ap some (project_payload-touched e.aggregate_id version e.payload t t' (rw fits at h))
  ]

module _ {F N : Type 0} (k : Sinks F N) (now : ℕ) (e : Event F) (before : Tables N) where
  -- The tables are as before, or the event has been projected once.
  abbrev pub AtMostOnce : k.postgres.State → Type 0
  AtMostOnce s =
      (k.postgres.tables s ≡ before) ⊎ (project k.numeric now e before ≡ some (k.postgres.tables s))

  projected_once :
      (s : k.postgres.State) (t : Tables N)
      → AtMostOnce s
      → project k.numeric now e (k.postgres.tables s) ≡ some t
      → project k.numeric now e before ≡ some t
  projected_once s t (inl same) h = (rw same at h)
  projected_once s t (inr once) h =
      once ∙ sym (project-twice k.numeric now e before (k.postgres.tables s) once) ∙ h

  attempt-AtMostOnce :
      (s : k.postgres.State)
      → AtMostOnce s
      → AtMostOnce (k.postgres.transact (project k.numeric now e) s).1
  attempt-AtMostOnce s inv =
      let f = project k.numeric now e in
      elim (Result-cases (k.postgres.transact f s).0) [
        | inl (_, done) ↦ inr (projected_once s _ inv (k.postgres.transact_returns f s done))
        | inr (error, failed) ↦ elim (k.postgres.transact_raises f s error failed) [
          | inl same ↦ rw same inv
          | inr lost ↦ inr (projected_once s _ inv lost)
        ]
      ]

  attempts-AtMostOnce :
      (n : ℕ) (s : k.postgres.State)
      → AtMostOnce s
      → AtMostOnce (retry n (k.postgres.transact (project k.numeric now e)) s).1
  unfolding retry
  attempts-AtMostOnce zero s inv = inv
  attempts-AtMostOnce (suc n) s inv =
      let f = project k.numeric now e in
      elim (Result-cases (k.postgres.transact f s).0) [
        | inl (_, done) ↦
            rw (retry-ok n (k.postgres.transact f) s tt done) (attempt-AtMostOnce s inv)
        | inr (error, failed) ↦
            rw (retry-err n (k.postgres.transact f) s error failed)
              (attempts-AtMostOnce n _ (attempt-AtMostOnce s inv))
      ]

  attempts-returns :
      (n : ℕ) (s : k.postgres.State)
      → AtMostOnce s
      → (retry n (k.postgres.transact (project k.numeric now e)) s).0 ≡ ok tt
      → project k.numeric now e before
        ≡ some (k.postgres.tables (retry n (k.postgres.transact (project k.numeric now e)) s).1)
  unfolding retry
  attempts-returns zero s inv h = ground (arith, h)
  attempts-returns (suc n) s inv h =
      let f = project k.numeric now e in
      elim (Result-cases (k.postgres.transact f s).0) [
        | inl (_, done) ↦
            rw (retry-ok n (k.postgres.transact f) s tt done)
              (projected_once s _ inv (k.postgres.transact_returns f s done))
        | inr (error, failed) ↦ rw (retry-err n (k.postgres.transact f) s error failed) (
            attempts-returns n _ (attempt-AtMostOnce s inv)
              (rw (retry-err n (k.postgres.transact f) s error failed) at h))
      ]

module _ {F N : Type 0} (k : Sinks F N) (now : ℕ) (e : Event F) (s : k.postgres.State) where
  -- However `project_to_postgres` ends, the tables are as before, or those of one projection of
  -- the event.
  pub project_to_postgres-AtMostOnce :
      AtMostOnce k now e (k.postgres.tables s) (project_to_postgres k now e s).1
  unfolding project_to_postgres
  project_to_postgres-AtMostOnce = attempts-AtMostOnce k now e (k.postgres.tables s) 3 s (inl refl)

  -- When `project_to_postgres` returns, the tables are those of one projection of the event,
  -- however many of its three attempts reached the database.
  pub project_to_postgres_returns :
      (project_to_postgres k now e s).0 ≡ ok tt
      → project k.numeric now e (k.postgres.tables s)
        ≡ some (k.postgres.tables (project_to_postgres k now e s).1)
  unfolding project_to_postgres
  project_to_postgres_returns = attempts-returns k now e (k.postgres.tables s) 3 s (inl refl)
