-- ===== src/Tests/Memory.antt =====
-- The services, each as a value in memory.
use event_sourcing_cqrs.Prelude.{
  ℕ, ◌+◌, ◌*◌, String, ◌≡◌, inl, inr, refl, sym, ap, ◌∙◌, subst, Bool, true, false, Option, none,
  some, List, [], ◌∷◌, ◌++◌, map, arith, select, str_eq, eq_iff, if◌then◌else◌, ltb, ◌==◌, sort_by,
  IsSortedFrom, sort_by-IsSortedFrom, Memᴰ, Permᴰ, Bool-cases,
}
use event_sourcing_cqrs.Prelude.Newest.{
  take, newest_first, newest_first-IsNewestFirst, newest_first-Permᴰ,
}
use mathlib.Core.List.Memᴰ
use mathlib.Core.List.Permᴰ
use event_sourcing_cqrs.Float.{Float}
use event_sourcing_cqrs.Numeric.{Numeric}
use event_sourcing_cqrs.Exec.{Error, Result, ok, err, driver, ok-injective}
use event_sourcing_cqrs.Services.Collection.{Collection, clashes}
use event_sourcing_cqrs.Services.Redis.{Redis, is_some}
use event_sourcing_cqrs.Services.Kafka.{Kafka}
use event_sourcing_cqrs.Services.Buckets.{Buckets}
use event_sourcing_cqrs.Services.RestProxy.{RestProxy}
use event_sourcing_cqrs.Services.Postgres.{Postgres, Plan}
use event_sourcing_cqrs.Services.Offsets.{Offsets}
use event_sourcing_cqrs.Services.Queue.{Queue, Received, without}
use event_sourcing_cqrs.Services.ObjectStore.{ObjectStore}
use event_sourcing_cqrs.Tests.Search.{
  last_by, last_by-none, last_by-mem, last_by-greatest, sort_by-Permᴰ,
}

-- Whole amounts for floats and for the columns.
abbrev pub whole_floats : Float ℕ
whole_floats = record { zero = 0; add = λ a b. a + b; times = λ n a. n * a; is_pos = λ a. ltb 0 a }

abbrev pub whole_numerics : Numeric ℕ ℕ
whole_numerics = record {
  zero = 0;
  add = λ a b. a + b;
  to_price = λ a. if ltb a 100000000 then some a else none;
  to_amount = λ a. if ltb a 1000000000 then some a else none;
  to_float = λ a. a;
  fits_amount = λ a. ltb a 1000000000;
}

-- A topic that takes every record.
abbrev pub memory_topic : {M : Type 0} → Kafka M
memory_topic {M} = record {
  State = List M;
  log = λ s. s;
  send = λ m s. (ok tt, s ++ m ∷ []);
  send_returns = λ m s h. refl;
  send_raises = λ m s e h. ground (arith, h);
}

-- A proxy that takes every record.
abbrev pub memory_proxy : {M : Type 0} → RestProxy M
memory_proxy {M} = record {
  State = List M;
  log = λ s. s;
  post = λ m s. (ok (record { status = 200; error_code = none }), s ++ m ∷ []);
  post_accepts = λ m s answer h accepted clean. refl;
  post_writes = λ m s. inr refl;
}

abbrev pub memory_account : Buckets
memory_account = record {
  State = List String;
  names = λ s. s;
  list_buckets = λ s. (ok s, s);
  create_bucket = λ name s. (ok tt, s ++ name ∷ []);
  list_buckets_returns = λ s found h. sym (ok-injective h);
  list_buckets_keeps = λ s. refl;
  create_bucket_returns = λ name s h. refl;
  create_bucket_raises = λ name s e h. inr refl;
}

-- A group whose commits always work.
abbrev pub memory_group : Offsets
memory_group = record {
  State = ℕ;
  committed = λ s. s;
  commit = λ n s. (ok tt, n);
  commit_returns = λ n s h. refl;
  commit_raises = λ n s e h. inr refl;
}

abbrev pub memory_bucket : {B : Type 0} → ObjectStore B
memory_bucket {B} = record {
  State = List (String × B);
  objects = λ s. s;
  put_object = λ key body s. (ok tt, s ++ (key, body) ∷ []);
  put_object_returns = λ key body s h. refl;
  put_object_raises = λ key body s e h. inr refl;
}

abbrev pub memory_redis : Redis
memory_redis = record {
  State = String → Option String;
  lookup = λ k s. s k;
  get = λ k s. (ok (s k), s);
  exists = λ k s. (ok (is_some (s k)), s);
  setex = λ k seconds v s. (ok tt, λ j. if str_eq j k then some v else s j);
  delete = λ k s. (ok tt, λ j. if str_eq j k then none else s j);
  get_returns = λ k s v h. sym (ok-injective h);
  get_keeps = λ k j s. refl;
  exists_returns = λ k s b h. sym (ok-injective h);
  exists_keeps = λ k j s. refl;
  setex_returns = λ k seconds v s h. rw ((eq_iff k k).1 refl) refl;
  setex_others = λ k seconds v j s other. ground (arith, eq_iff j k, other);
  setex_raises = λ k seconds v s e h. ground (arith, h);
  delete_returns = λ k s h. rw ((eq_iff k k).1 refl) refl;
  delete_raises = λ k s e h. ground (arith, h);
  delete_others = λ k j s other. ground (arith, eq_iff j k, other);
}

-- A database that runs a transaction, or rolls it back.
abbrev committed_or_back : {T : Type 0} → T → Option T → Result (Unit {0}) × T
committed_or_back t none = (err (driver "aborted"), t)
committed_or_back t (some t') = (ok tt, t')

pub committed :
    {T : Type 0} (t : T) (o : Option T)
    → (committed_or_back t o).0 ≡ ok tt
    → o ≡ some (committed_or_back t o).1
committed t none h = ground (arith, h)
committed t (some t') h = refl

pub rolled_back :
    {T : Type 0} (t : T) (o : Option T) (e : Error)
    → (committed_or_back t o).0 ≡ err e
    → (committed_or_back t o).1 ≡ t
rolled_back t none e h = refl
rolled_back t (some t') e h = ground (arith, h)

-- A plan that reads rows as they stand.
abbrev pub in_order : Plan
in_order = record { arrange = λ rows. rows; arrange-Permᴰ = λ rows. Permᴰ.refl rows }

abbrev answer_or_refusal : {A : Type 0} → Option A → Result A
answer_or_refusal none = err (driver "refused")
answer_or_refusal (some a) = ok a

pub answered : {A : Type 0} (o : Option A) (a : A) → answer_or_refusal o ≡ ok a → o ≡ some a
answered none a h = ground (arith, h)
answered (some b) a h = ap (λ x. some x) (ok-injective h)

abbrev pub memory_postgres : {T : Type 0} → Postgres T
memory_postgres {T} = record {
  State = T;
  tables = λ s. s;
  plan = λ s. in_order;
  fetch = λ q s. (answer_or_refusal (q in_order s), s);
  fetch_returns = λ q s a h. answered (q in_order s) a h;
  fetch_keeps = λ q s. refl;
  transact = λ f s. committed_or_back s (f s);
  transact_returns = λ f s h. committed s (f s) h;
  transact_raises = λ f s e h. inl (rolled_back s (f s) e h);
}

-- A queue with room for one message.
module _ {M : Type 0} where
  abbrev in_queue : Option M → List (Received M)
  in_queue none = []
  in_queue (some m) = record { body = m; receipt_handle = "first" } ∷ []

  abbrev enqueue : M → Option M → Result (Unit {0}) × Option M
  enqueue m none = (ok tt, some m)
  enqueue m (some old) = (err (driver "full"), some old)

  abbrev dequeue : String → Option M → Option M
  dequeue handle none = none
  dequeue handle (some m) = if str_eq "first" handle then none else some m

  pub one_handle :
      (s : Option M) (m n : Received M) → Memᴰ m (in_queue s) → Memᴰ n (in_queue s) → m ≡ n
  one_handle none m n hm hn = absurd (Memᴰ.not-nil hm)
  one_handle (some x) m n (Memᴰ.head e) (Memᴰ.head f) = e ∙ sym f
  one_handle (some x) m n (Memᴰ.tail hm) _ = absurd (Memᴰ.not-nil hm)
  one_handle (some x) m n (Memᴰ.head e) (Memᴰ.tail hn) = absurd (Memᴰ.not-nil hn)

  pub enqueued :
      (m : M) (s : Option M)
      → (enqueue m s).0 ≡ ok tt
      → in_queue (enqueue m s).1 ≡ in_queue s ++ record { body = m; receipt_handle = "first" } ∷ []
  enqueued m none h = refl
  enqueued m (some old) h = ground (arith, h)

  pub dequeued :
      (handle : String) (s : Option M) → in_queue (dequeue handle s) ≡ without handle (in_queue s)
  unfolding select
  dequeued handle none = refl
  dequeued handle (some m) = elim (Bool-cases (str_eq "first" handle)) [
    | inl own ↦ rw own refl
    | inr other ↦ rw other refl
  ]

  abbrev pub memory_queue : Queue M
  memory_queue = record {
    State = Option M;
    messages = in_queue;
    send_message = enqueue;
    receive_message = λ s. (ok (in_queue s), s);
    delete_message = λ handle s. (ok tt, dequeue handle s);
    handles_unique = λ s m n hm hn same. one_handle s m n hm hn;
    send_message_returns = λ m s h. ("first", enqueued m s h);
    receive_message_keeps = λ s. refl;
    receive_message_returns =
        λ s found m h inside. subst (λ l. Memᴰ m l) (sym (ok-injective h)) inside;
    delete_message_returns = λ handle s h. dequeued handle s;
    delete_message_raises = λ handle s e h. inr (dequeued handle s);
  }

-- A collection that finds what it holds, and refuses a document that clashes.
module _ {D : Type 0} where
  abbrev insert_unless : D → Bool → List D → Result (Unit {0}) × List D
  insert_unless d true s = (err (driver "E11000 duplicate key error"), s)
  insert_unless d false s = (ok tt, s ++ d ∷ [])

  pub inserted :
      (d : D) (b : Bool) (s : List D)
      → (insert_unless d b s).0 ≡ ok tt
      → (b ≡ false) × ((insert_unless d b s).1 ≡ s ++ d ∷ [])
  inserted d true s h = ground (arith, h)
  inserted d false s h = (refl, refl)

  pub refused :
      (d : D) (b : Bool) (s : List D) (e : Error)
      → (insert_unless d b s).0 ≡ err e
      → (b ≡ true) × ((insert_unless d b s).1 ≡ s)
  refused d true s e h = (refl, refl)
  refused d false s e h = ground (arith, h)

abbrev limited : {D : Type 0} → ℕ → List D → List D
limited limit rows = if limit == 0 then rows else take limit rows

module _ {D : Type 0} {clash : D → D → Bool} where
  abbrev pub memory_collection : Collection D clash
  memory_collection = record {
    State = List D;
    docs = λ s. s;
    insert_one = λ d s. insert_unless d (clashes clash d s) s;
    find_sorted = λ filter key s. (ok (sort_by key (select filter s)), s);
    find_newest =
        λ filter key limit s. (ok (limited limit (newest_first key (select filter s))), s);
    find_last = λ filter key s. (ok (last_by key (select filter s)), s);
    update_many = λ filter update s. (ok tt, map (λ d. if filter d then update d else d) s);
    insert_one_returns = λ d s h. inserted d _ s h;
    insert_one_raises = λ d s e h. inl (refused d _ s e h).1;
    insert_one_refused = λ d s text h dup. refused d _ s (driver text) h;
    find_sorted_returns = λ filter key s found h.
        subst (λ l. IsSortedFrom key 0 l × Permᴰ l (select filter s)) (ok-injective h)
          (sort_by-IsSortedFrom key _, sort_by-Permᴰ key _);
    find_sorted_keeps = λ filter key s. refl;
    find_newest_returns = λ filter key limit s found h. (
      newest_first key (select filter s),
      newest_first-IsNewestFirst key _,
      newest_first-Permᴰ key _,
      sym (ok-injective h),
    );
    find_newest_keeps = λ filter key limit s. refl;
    find_last_none = λ filter key s h. last_by-none key _ (ok-injective h);
    find_last_some = λ filter key s d h.
        (last_by-mem key _ d (ok-injective h), last_by-greatest key _ d (ok-injective h));
    find_last_keeps = λ filter key s. refl;
    update_many_returns = λ filter update s h. refl;
  }
