-- ===== src/Queries/Answers.antt =====
-- What `get_order` of api/routers/query_router.py answers, for a JSON library that reads back what
-- it wrote.
use event_sourcing_cqrs.Prelude.{
  String, ◌≡◌, sym, ap, ◌∙◌, inl, inr, some, false, arith, str_eq, eq_iff, some-injective,
}
use event_sourcing_cqrs.Exec.{Result, ok, ok-injective}
use event_sourcing_cqrs.Services.Postgres.{Plan}
use event_sourcing_cqrs.ReadModel.{Tables}
use event_sourcing_cqrs.Queries.{OrderResult, Readers, Desk, order_result, view_of, get_order}
use event_sourcing_cqrs.Queries.CacheAside.{
  cached_at, Outcome, hit, read, missing, garbled, broken, get_order_lem,
}
use event_sourcing_cqrs.Queries.Freshness.{IsFresh}

module _ {F N J : Type 0} (r : Readers F N J) where
  -- What `dumps` writes for a dictionary is not empty, and `loads` makes of it the document that the
  -- response model gives.
  abbrev pub ReadsBack : OrderResult F N → Type 0
  ReadsBack result =
      (str_eq (r.dumps result) "" ≡ false)
      × (r.loads (r.dumps result) ≡ some (r.respond (view_of r result)))

  -- The JSON library reads back what it writes for the order's row.
  abbrev pub RowReadsBack : String → Tables N → Type 1
  RowReadsBack oid t =
      (plan : Plan) (result : OrderResult F N)
      → order_result r oid plan t ≡ some result
      → ReadsBack result

  module _ (oid : String) where
    -- The document that an outcome leaves in the cache.
    cached_document :
        (res : Result J) (doc : J) (s s' : Desk r)
        → Outcome r oid res s s'
        → RowReadsBack oid (r.postgres.tables s.postgres)
        → res ≡ ok doc
        → (text : String) × (cached_at r oid s' ≡ some text)
          × (str_eq text "" ≡ false)
          × (r.loads text ≡ some doc)
    cached_document _ doc s s' (hit text found held parsed kept) codec same =
        (text, kept, held.1, rw (← ok-injective same) parsed)
    cached_document _ doc s s' (read plan result empty found kept) codec same =
        let (full, back) = codec plan result found in
        (r.dumps result, kept, full, rw (← ok-injective same) back)
    cached_document _ doc s s' (missing empty none_found kept) codec same = ground (arith, same)
    cached_document _ doc s s' (garbled text held bad) codec same = ground (arith, same)
    cached_document _ doc s s' (broken e raised) codec same = ground (arith, same)

    held_document :
        (res : Result J) (first second : J) (text : String) (s s' : Desk r)
        → Outcome r oid res s s'
        → cached_at r oid s ≡ some text
        → str_eq text "" ≡ false
        → r.loads text ≡ some first
        → res ≡ ok second
        → second ≡ first
    held_document _ first second text s s' (hit other doc held parsed kept) there full loaded same =
        let same_text = some-injective _ _ (sym held.0 ∙ there) in
        sym (ok-injective same) ∙ some-injective _ _ (sym parsed ∙ ap r.loads same_text ∙ loaded)
    held_document _ first second text s s' (read plan result empty found kept) there full loaded
          same =
        elim empty [
          | inl none_held ↦ ground (arith, none_held, there)
          | inr empty_held ↦ ground (arith, empty_held, there, full, eq_iff text "")
        ]
    held_document _ first second text s s' _ there full loaded same = ground (arith, same)

    -- Where the JSON library reads back what it writes for the row of an order, two calls of
    -- `get_order` one after the other that both answer give the same document.
    pub get_order_twice :
        (s : Desk r) (first second : J)
        → RowReadsBack oid (r.postgres.tables s.postgres)
        → (get_order r oid s).0 ≡ ok first
        → (get_order r oid (get_order r oid s).1).0 ≡ ok second
        → second ≡ first
    get_order_twice s first second codec h again =
        let s' = (get_order r oid s).1 in
        let (text, there, full, loaded) =
          cached_document _ first s s' (get_order_lem r oid s).1 codec h in
        held_document _ first second text s' _ (get_order_lem r oid s').1 there full loaded again

    fresh_document :
        (res : Result J) (doc : J) (s s' : Desk r)
        → Outcome r oid res s s'
        → IsFresh r (r.postgres.tables s.postgres) s.redis oid
        → RowReadsBack oid (r.postgres.tables s.postgres)
        → res ≡ ok doc
        → (plan : Plan) × (result : OrderResult F N) × (order_result r oid plan
              (r.postgres.tables s.postgres)
            ≡ some result)
          × (doc ≡ r.respond (view_of r result))
    fresh_document _ doc s s' (hit text found held parsed kept) (inl none_held) codec same =
        ground (arith, none_held, held.0)
    fresh_document _ doc s s' (hit text found held parsed kept) (inr (plan, result, there, cached))
          codec same =
        let same_text = some-injective _ _ (sym held.0 ∙ cached) in
        let back = (codec plan result there).1 in
        (
          plan,
          result,
          there,
          sym (ok-injective same) ∙ some-injective _ _ (sym parsed ∙ ap r.loads same_text ∙ back),
        )
    fresh_document _ doc s s' (read plan result empty found kept) fresh codec same =
        (plan, result, found, sym (ok-injective same))
    fresh_document _ doc s s' _ fresh codec same = ground (arith, same)

    -- Where Redis holds for the order nothing, or the text of what the read model has, and the
    -- JSON library reads back what it writes for the order's row, `get_order` answers with the
    -- document of the order's row and items.
    pub get_order_returns :
        (s : Desk r) (doc : J)
        → IsFresh r (r.postgres.tables s.postgres) s.redis oid
        → RowReadsBack oid (r.postgres.tables s.postgres)
        → (get_order r oid s).0 ≡ ok doc
        → (plan : Plan) × (result : OrderResult F N) × (order_result r oid plan
              (r.postgres.tables s.postgres)
            ≡ some result)
          × (doc ≡ r.respond (view_of r result))
    get_order_returns s doc fresh codec h =
        fresh_document _ doc s _ (get_order_lem r oid s).1 fresh codec h
