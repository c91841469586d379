-- ===== src/Services/Collection.antt =====
-- A MongoDB collection whose unique indexes are given by `clash`: two documents that cannot both be
-- in it. A write that raises may have reached the server or not, unless the server refused it.
use event_sourcing_cqrs.Prelude.{
  ℕ, ◌≤◌, String, ◌≡◌, ◌⊎◌, Bool, true, false, Option, none, some, List, [], ◌∷◌, ◌++◌, map, select,
  if◌then◌else◌, ◌==◌, IsSortedFrom,
}
use event_sourcing_cqrs.Prelude.Newest.{IsNewestFirst, take}
use mathlib.Core.List.{Memᴰ, Permᴰ}
use event_sourcing_cqrs.Exec.{Exec, Error, ok, err, driver}
use event_sourcing_cqrs.Exec.Message.{is_duplicate_key}

-- Some document of the list clashes with `d`.
abbrev pub clashes : {D : Type 0} → (D → D → Bool) → D → List D → Bool
clashes clash d [] = false
clashes clash d (x ∷ xs) = if clash d x then true else clashes clash d xs

pub record Collection (D : Type 0) (clash : D → D → Bool) : Type 1 where
  pub State : Type 0
  pub docs : State → List D
  pub insert_one : D → Exec State (Unit {0})
  -- `find(filter).sort(key, 1).to_list()`
  pub find_sorted : (D → Bool) → (D → ℕ) → Exec State (List D)
  -- `find(filter).sort(key, -1).limit(n).to_list()`, where 0 is no limit
  pub find_newest : (D → Bool) → (D → ℕ) → ℕ → Exec State (List D)
  -- `find_one(filter, sort=[(key, -1)])`
  pub find_last : (D → Bool) → (D → ℕ) → Exec State (Option D)
  -- `update_many(filter, update)`
  pub update_many : (D → Bool) → (D → D) → Exec State (Unit {0})
  pub insert_one_returns :
      (d : D) (s : State)
      → (insert_one d s).0 ≡ ok tt
      → (clashes clash d (docs s) ≡ false) × (docs (insert_one d s).1 ≡ docs s ++ d ∷ [])
  pub insert_one_raises :
      (d : D) (s : State) (e : Error)
      → (insert_one d s).0 ≡ err e
      → (docs (insert_one d s).1 ≡ docs s)
        ⊎ (clashes clash d (docs s) ≡ false) × (docs (insert_one d s).1 ≡ docs s ++ d ∷ [])
  pub insert_one_refused :
      (d : D) (s : State) (text : String)
      → (insert_one d s).0 ≡ err (driver text)
      → is_duplicate_key text ≡ true
      → (clashes clash d (docs s) ≡ true) × (docs (insert_one d s).1 ≡ docs s)
  pub find_sorted_returns :
      (filter : D → Bool) (key : D → ℕ) (s : State) (found : List D)
      → (find_sorted filter key s).0 ≡ ok found
      → IsSortedFrom key 0 found × Permᴰ found (select filter (docs s))
  pub find_sorted_keeps :
      (filter : D → Bool) (key : D → ℕ) (s : State) → docs (find_sorted filter key s).1 ≡ docs s
  pub find_newest_returns :
      (filter : D → Bool) (key : D → ℕ) (limit : ℕ) (s : State) (found : List D)
      → (find_newest filter key limit s).0 ≡ ok found
      → (rows : List D) × IsNewestFirst key rows
        × Permᴰ rows (select filter (docs s))
        × (found ≡ (if limit == 0 then rows else take limit rows))
  pub find_newest_keeps :
      (filter : D → Bool) (key : D → ℕ) (limit : ℕ) (s : State)
      → docs (find_newest filter key limit s).1 ≡ docs s
  pub find_last_none :
      (filter : D → Bool) (key : D → ℕ) (s : State)
      → (find_last filter key s).0 ≡ ok none
      → select filter (docs s) ≡ []
  pub find_last_some :
      (filter : D → Bool) (key : D → ℕ) (s : State) (d : D)
      → (find_last filter key s).0 ≡ ok (some d)
      → Memᴰ d (select filter (docs s))
        × ((x : D) → Memᴰ x (select filter (docs s)) → key x ≤ key d)
  pub find_last_keeps :
      (filter : D → Bool) (key : D → ℕ) (s : State) → docs (find_last filter key s).1 ≡ docs s
  pub update_many_returns :
      (filter : D → Bool) (update : D → D) (s : State)
      → (update_many filter update s).0 ≡ ok tt
      → docs (update_many filter update s).1 ≡ map (λ d. if filter d then update d else d) (docs s)
