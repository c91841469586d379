-- ===== src/Tests/Platform.antt =====
-- The platform of the API and of the consumers in memory.
use mathlib.Core.Logic.{ite, if_pos, if_neg}
use native.Mathlib.Decide.{ℕ_discrete}
use event_sourcing_cqrs.Prelude.{
  String, ◌≡◌, refl, ap, inl, inr, Bool, true, false, List, [], ◌∷◌, Memᴰ, arith, str_eq, eq_iff,
  Bool-cases,
}
use event_sourcing_cqrs.Exec.{ok}
use event_sourcing_cqrs.Services.Connections.{Connections, Client}
use event_sourcing_cqrs.Services.Indexes.{Index, Indexes}

Client-discrete : Discrete Client
Client-discrete = hlevel

String-discrete : Discrete String
String-discrete a b = elim (Bool-cases (str_eq a b)) [
  | inl same ↦ yes ((eq_iff a b).0 same)
  | inr other ↦ no (λ same. ground (arith, other, eq_iff a b, same))
]

Index-discrete : Discrete Index
Index-discrete = hlevel (ℕ_discrete, String-discrete)

-- An index is added at the end, unless it is there.
pub add_index : Index → List Index → List Index
add_index i [] = i ∷ []
add_index i (x ∷ xs) = ite (Index-discrete i x) (x ∷ xs) (x ∷ add_index i xs)

pub mem-add_index_self : (i : Index) (xs : List Index) → Memᴰ i (add_index i xs)
unfolding add_index
mem-add_index_self i [] = Memᴰ.head refl
mem-add_index_self i (x ∷ xs) = elim (Index-discrete i x) [
  | yes same ↦ rw (if_pos _ same) (Memᴰ.head same)
  | no other ↦ rw (if_neg _ other) (Memᴰ.tail (mem-add_index_self i xs))
]

pub mem-add_index : (i j : Index) (xs : List Index) → Memᴰ j xs → Memᴰ j (add_index i xs)
unfolding add_index
mem-add_index i j [] m = elim m [ ]
mem-add_index i j (x ∷ xs) (Memᴰ.head e) = elim (Index-discrete i x) [
  | yes same ↦ rw (if_pos _ same) (Memᴰ.head e)
  | no other ↦ rw (if_neg _ other) (Memᴰ.head e)
]
mem-add_index i j (x ∷ xs) (Memᴰ.tail m) = elim (Index-discrete i x) [
  | yes same ↦ rw (if_pos _ same) (Memᴰ.tail m)
  | no other ↦ rw (if_neg _ other) (Memᴰ.tail (mem-add_index i j xs m))
]

pub add_index-mem : (i : Index) (xs : List Index) → Memᴰ i xs → add_index i xs ≡ xs
unfolding add_index
add_index-mem i [] m = elim m [ ]
add_index-mem i (x ∷ xs) (Memᴰ.head e) = rw (if_pos _ e) refl
add_index-mem i (x ∷ xs) (Memᴰ.tail m) = elim (Index-discrete i x) [
  | yes same ↦ rw (if_pos _ same) refl
  | no other ↦ rw (if_neg _ other) (ap (λ ys. x ∷ ys) (add_index-mem i xs m))
]

abbrev pub memory_indexes : Indexes
memory_indexes = record {
  State = List Index;
  indexes = λ s. s;
  create_index = λ i s. (ok tt, add_index i s);
  create_index_returns = λ i s h. mem-add_index_self i s;
  create_index_keeps = mem-add_index;
  create_index_again = add_index-mem;
}

-- The open clients.
pub with_client : Client → Bool → (Client → Bool) → Client → Bool
with_client c b s d = ite (Client-discrete c d) b (s d)

pub with_client_self : (c : Client) (b : Bool) (s : Client → Bool) → with_client c b s c ≡ b
unfolding with_client
with_client_self c b s = rw (if_pos (Client-discrete c c) refl) refl

pub with_client-keeps :
    (c d : Client) (b : Bool) (s : Client → Bool) → s d ≡ b → with_client c b s d ≡ b
unfolding with_client
with_client-keeps c d b s h = elim (Client-discrete c d) [
  | yes same ↦ rw (if_pos _ same) refl
  | no other ↦ rw (if_neg _ other) h
]

abbrev pub memory_connections : Connections
memory_connections = record {
  State = Client → Bool;
  is_open = λ c s. s c;
  connect = λ c s. (ok tt, with_client c true s);
  close = λ c s. (ok tt, with_client c false s);
  connect_returns = λ c s h. with_client_self c true s;
  connect_keeps = λ c d s h. with_client-keeps c d true s h;
  close_returns = λ c s h. with_client_self c false s;
  close_keeps = λ c d s h. with_client-keeps c d false s h;
}
