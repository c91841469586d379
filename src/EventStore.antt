-- ===== src/EventStore.antt =====
-- api/services/event_store.py: the append-only log of domain events in MongoDB.
pub mod Append
pub mod Load
pub mod History
pub mod Expiry
pub mod Indexes
use event_sourcing_cqrs.Prelude.{
  ℕ, ◌+◌, ◌*◌, String, Bool, ◌&&◌, ◌||◌, Option, none, some, List, ◌==◌, leb, not, false, select,
  str_eq, if◌then◌else◌,
}
use event_sourcing_cqrs.Events.{Event, event_type, type_value}
use event_sourcing_cqrs.Exec.{Exec, Error, Result, ok, err, driver, version_conflict, pure, ◌>>=◌}
use event_sourcing_cqrs.Exec.Message.{is_duplicate_key}
use event_sourcing_cqrs.Services.Collection.{Collection}

-- A document of the collection: the event's fields, `_id` (its `event_id`), and `expires_at` once
-- that has been set.
pub record Document (F : Type 0) : Type 0 where
  pub event : Event F
  pub expires_at : Option ℕ

-- The unique indexes that `setup_indexes` creates: on the order id with the version, and on the
-- event id, which is `_id` too.
abbrev pub same_index_key : {F : Type 0} → Document F → Document F → Bool
same_index_key a b =
    str_eq a.event.aggregate_id b.event.aggregate_id
      && a.event.aggregate_version == b.event.aggregate_version
    || str_eq a.event.event_id b.event.event_id

abbrev pub EventCollection : Type 0 → Type 1
EventCollection F = Collection (Document F) same_index_key

-- The filter `{"aggregate_id": aggregate_id}`.
abbrev pub of_aggregate : {F : Type 0} → String → Document F → Bool
of_aggregate aggregate_id d = str_eq d.event.aggregate_id aggregate_id

-- The filter `{"event_type": event_type}`.
abbrev pub of_type : {F : Type 0} → String → Document F → Bool
of_type type d = str_eq (type_value (event_type d.event)) type

abbrev pub version_key : {F : Type 0} → Document F → ℕ
version_key d = d.event.aggregate_version

-- Thirty days, the default of `retention_seconds`, in the clock's microseconds.
abbrev pub retention : ℕ
retention = 2592000 * 1000000

-- The index `idx_event_expiry`: MongoDB deletes a document when its `expires_at` has come.
abbrev has_expired : ℕ → Option ℕ → Bool
has_expired now none = false
has_expired now (some time) = leb time now

-- The documents that are left at a time, once the deletions of that index have caught up.
unfoldable pub unexpired : {F : Type 0} → ℕ → List (Document F) → List (Document F)
unexpired now docs = select (λ d. not (has_expired now d.expires_at)) docs

module _ {F : Type 0} (mongo : EventCollection F) where
  -- The handler of `append`'s `except`.
  abbrev pub on_insert_error : Event F → Error → Error
  on_insert_error event (driver text) =
      if is_duplicate_key text
      then version_conflict event.aggregate_id event.aggregate_version
      else driver text
  on_insert_error event other = other

  abbrev pub reraise : Event F → Result (Unit {0}) → Result (Unit {0})
  reraise event (ok _) = ok tt
  reraise event (err e) = err (on_insert_error event e)

  -- `append`
  unfoldable pub append : Event F → Exec mongo.State (Unit {0})
  append event s =
      let (r, s') = mongo.insert_one (record { event = event; expires_at = none }) s in
      (reraise event r, s')

  -- `get_events`: the stored events, without `_id`
  unfoldable pub get_events : String → Exec mongo.State (List (Document F))
  get_events aggregate_id = mongo.find_sorted (of_aggregate aggregate_id) version_key

  -- `get_events_by_type`, which no handler calls, for a limit that is not negative
  unfoldable pub get_events_by_type : String → ℕ → Exec mongo.State (List (Document F))
  get_events_by_type type limit = mongo.find_newest (of_type type) (λ d. d.event.occurred_at) limit

  abbrev pub version_or_zero : Option (Document F) → ℕ
  version_or_zero none = 0
  version_or_zero (some d) = d.event.aggregate_version

  -- `get_latest_version`
  unfoldable pub get_latest_version : String → Exec mongo.State ℕ
  get_latest_version aggregate_id = do
    doc ← mongo.find_last (of_aggregate aggregate_id) version_key
    pure (version_or_zero doc)

  -- `set_expiry_for_aggregate`, called at the clock reading `now`
  unfoldable pub set_expiry_for_aggregate : ℕ → String → Exec mongo.State (Unit {0})
  set_expiry_for_aggregate now aggregate_id =
      mongo.update_many (of_aggregate aggregate_id)
        λ d. record d { expires_at = some (now + retention) }
