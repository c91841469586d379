-- ===== src/Queries/Pages.antt =====
-- What `list_orders` of api/routers/query_router.py answers.
use event_sourcing_cqrs.Prelude.{
  ℕ, ◌+◌, ◌++◌, String, str_eq, ◌≡◌, refl, sym, ap, subst, ◌∙◌, inl, inr, Option, none, some, List,
  [], ◌∷◌, map, select, Bool, true, ◌&&◌, arith, if◌then◌else◌, Bool-cases, Permᴰ, some-injective,
}
use event_sourcing_cqrs.Exec.{ok, Result-cases, ok-injective}
use event_sourcing_cqrs.Services.Postgres.{Plan}
use event_sourcing_cqrs.Projection.{◌>>=◌, bind_some}
use event_sourcing_cqrs.ReadModel.{OrderRow, Tables}
use event_sourcing_cqrs.Queries.{OrderResult, Readers, Desk, status_text, joined, view_of}
use event_sourcing_cqrs.Prelude.Newest.{
  page, newest_first, IsNewestFirst, newest_first-IsNewestFirst, newest_first-Permᴰ,
}
use event_sourcing_cqrs.Queries.Statement.{
  ℤ, pos, negsuc, text, number, Column, status_column, customer_column, Builder, start,
  add_condition, param_at, as_count, all_hold, statement_of, params_of, run_statement,
}
use event_sourcing_cqrs.Queries.Listing.{filters, list_statement, list_orders}

-- A filter's value, for a filter that is given and not empty.
abbrev pub given : (String → String) → Option String → Option String
given change none = none
given change (some value) = if str_eq value "" then none else some (change value)

-- The column holds the value, where there is one.
abbrev pub matches : Option String → String → Bool
matches none held = true
matches (some value) held = str_eq held value

as_count_lem : (z : ℤ) (n : ℕ) → as_count (number z) ≡ some n → z ≡ pos n
unfolding as_count
as_count_lem (pos m) n h = ground arith
as_count_lem (negsuc m) n h = cc

module _ {X : Type 0} (limit offset : ℤ) (f : ℕ → ℕ → X) where
  counted :
      (x : X)
      → (do l ← as_count (number limit); o ← as_count (number offset); some (f l o)) ≡ some x
      → (l : ℕ) × (o : ℕ) × (limit ≡ pos l) × (offset ≡ pos o) × (x ≡ f l o)
  counted x h =
      let (l, limit_is, h₁) = bind_some (as_count (number limit)) _ h in
      let (o, offset_is, h₂) = bind_some (as_count (number offset)) _ h₁ in
      (
        l,
        o,
        as_count_lem limit l limit_is,
        as_count_lem offset o offset_is,
        sym (some-injective _ _ h₂),
      )

-- What an `if` adds for a value, or for none.
abbrev push : Column → Option String → Builder → Builder
push column none b = b
push column (some value) b = record {
  conditions = b.conditions ++ (column, b.idx) ∷ [];
  params = b.params ++ text value ∷ [];
  idx = b.idx + 1;
}

add_condition-push :
    (column : Column) (change : String → String) (value : Option String) (b : Builder)
    → add_condition column change value b ≡ push column (given change value) b
unfolding add_condition
add_condition-push column change none b = refl
add_condition-push column change (some value) b = elim (Bool-cases (str_eq value "")) [
  | inl empty ↦ rw empty refl
  | inr full ↦ rw full refl
]

module _ {F N J : Type 0} (r : Readers F N J) where
  -- The orders that the values ask for.
  abbrev pub wanted : Option String → Option String → OrderRow N → Bool
  wanted status customer_id row =
      matches status (status_text row.status) && matches customer_id row.customer_id

  -- The two columns, tested in the order of the conditions.
  abbrev tested : Option String → Option String → OrderRow N → Bool
  tested none none row = true
  tested (some v) none row = str_eq (status_text row.status) v && true
  tested none (some c) row = str_eq row.customer_id c && true
  tested (some v) (some c) row =
      str_eq (status_text row.status) v && (str_eq row.customer_id c && true)

  select-tested :
      (status customer_id : Option String) (rows : List (OrderRow N))
      → select (tested status customer_id) rows ≡ select (wanted status customer_id) rows
  unfolding select
  select-tested status customer_id [] = refl
  select-tested none none (x ∷ xs) = ap (λ l. x ∷ l) (select-tested none none xs)
  select-tested (some v) none (x ∷ xs) = ground (arith, select-tested (some v) none xs)
  select-tested none (some c) (x ∷ xs) = ground (arith, select-tested none (some c) xs)
  select-tested (some v) (some c) (x ∷ xs) = ground (arith, select-tested (some v) (some c) xs)

  abbrev pushed : Option String → Option String → Builder
  pushed status customer_id = push customer_column customer_id (push status_column status start)

  module _ (limit offset : ℤ) (plan : Plan) (t : Tables N) where
    abbrev shown : Option String → Option String → ℕ → ℕ → List (OrderResult F N)
    shown status customer_id l o = map (joined r plan t) (
        page l o (
          newest_first (λ row. row.created_at)
            (plan.arrange (select (tested status customer_id) t.orders))))

    run_statement-pushed :
        (status customer_id : Option String) (results : List (OrderResult F N))
        → run_statement r
            (statement_of (pushed status customer_id))
            (params_of (pushed status customer_id) limit offset)
            plan
            t
          ≡ some results
        → (l : ℕ) × (o : ℕ) × (limit ≡ pos l)
          × (offset ≡ pos o)
          × (results ≡ shown status customer_id l o)
    unfolding run_statement all_hold param_at
    run_statement-pushed none none results h = counted limit offset (shown none none) results h
    run_statement-pushed (some v) none results h =
        counted limit offset (shown (some v) none) results h
    run_statement-pushed none (some c) results h =
        counted limit offset (shown none (some c)) results h
    run_statement-pushed (some v) (some c) results h =
        counted limit offset (shown (some v) (some c)) results h

module _ {F N J : Type 0} (r : Readers F N J) (status customer_id : Option String)
    (limit offset : ℤ) where
  -- The page that `found` shows: of the orders that the filters ask for, the newest first, at most
  -- `limit` after the first `offset`.
  pub record Shown (plan : Plan) (t : Tables N) (found : List J) : Type 0 where
    pub limit_count : ℕ
    pub offset_count : ℕ
    pub limit_is : limit ≡ pos limit_count
    pub offset_is : offset ≡ pos offset_count
    pub rows : List (OrderRow N)
    pub complete :
        Permᴰ rows (select (wanted r (given r.upper status) (given (λ v. v) customer_id)) t.orders)
    pub newest : IsNewestFirst (λ (row : OrderRow N). row.created_at) rows
    pub shows :
        found
        ≡ map
            (λ row. r.respond (view_of r row))
            (map (joined r plan t) (page limit_count offset_count rows))

  list_statement-Shown :
      (plan : Plan) (t : Tables N) (results : List (OrderResult F N))
      → list_statement r status customer_id limit offset plan t ≡ some results
      → Shown plan t (map (λ row. r.respond (view_of r row)) results)
  list_statement-Shown plan t results h =
      let s = given r.upper status in
      let c = given (λ v. v) customer_id in
      let built : filters r status customer_id ≡ pushed r s c =
        ap (λ b. add_condition customer_column (λ v. v) customer_id b)
          (add_condition-push status_column r.upper status start)
        ∙ add_condition-push customer_column (λ v. v) customer_id _ in
      let (l, o, limit_is, offset_is, same) =
        run_statement-pushed r limit offset plan t s c results (rw built at h) in
      let asked = select (tested r s c) t.orders in
      let rows = plan.arrange asked in
      let arranged = plan.arrange-Permᴰ asked in
      record {
        limit_count = l;
        offset_count = o;
        limit_is = limit_is;
        offset_is = offset_is;
        rows = newest_first (λ (row : OrderRow N). row.created_at) rows;
        complete =
            Permᴰ.trans (newest_first-Permᴰ (λ row. row.created_at) rows)
              (subst (λ l. Permᴰ rows l) (select-tested r s c t.orders) arranged);
        newest = newest_first-IsNewestFirst (λ row. row.created_at) rows;
        shows = ap (map (λ row. r.respond (view_of r row))) same;
      }

  -- A `list_orders` that returns was called with a limit and an offset that are not negative.
  -- Its answer shows at most `limit` orders after the first `offset` of the list of exactly
  -- those orders that the given filters ask for, the newest first; an empty filter asks for
  -- nothing.
  pub list_orders_returns :
      (s : Desk r) (found : List J)
      → (list_orders r status customer_id limit offset s).0 ≡ ok found
      → Shown (r.postgres.plan s.postgres) (r.postgres.tables s.postgres) found
  unfolding list_orders
  list_orders_returns s found h =
      let query = list_statement r status customer_id limit offset in
      elim (Result-cases (r.postgres.fetch query s.postgres).0) [
        | inl (results, done) ↦
            let answer = ok-injective (rw done at h) in
            rw (← answer) (
              list_statement-Shown _ _ results
                (r.postgres.fetch_returns query s.postgres results done))
        | inr (e, failed) ↦ ground (arith, failed, h)
      ]
