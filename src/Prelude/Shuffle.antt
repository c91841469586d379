-- ===== src/Prelude/Shuffle.antt =====
-- Sorting lists that hold the same elements.
use mathlib.Core.HLevel.{¬_prop}
use mathlib.Core.List.{List, Pairwise, Permᴰ, Pairwise-cons, mem-cons_self}
use mathlib.Core.List.Permᴰ
use mathlib.Core.Path.{◌≡◌, refl, sym, ap₂, ◌∙◌}
use mathlib.Core.Logic.{◌≢◌}
use Prim.Native.Nat.{ℕ}
use event_sourcing_cqrs.Prelude.Sort.{
  sort_by, insert_by, insert_by_comm, IsSortedFrom, sort_by-sorted,
}

module _ {ℓ} {A : Type ℓ} (key : A → ℕ) where
  abbrev pub DistinctKeys : List A → Type ℓ
  DistinctKeys = Pairwise (λ a b. key a ≢ key b)

  pub DistinctKeys-perm : {xs ys : List A} → Permᴰ xs ys → DistinctKeys xs → DistinctKeys ys
  DistinctKeys-perm = Permᴰ.pairwise (λ a b. ¬_prop) (λ a b h e. h (sym e))

  -- Two lists that hold the same elements, of different keys, sort to one list.
  pub sort_by-perm :
      {xs ys : List A} → Permᴰ xs ys → DistinctKeys xs → sort_by key xs ≡ sort_by key ys
  unfolding sort_by
  sort_by-perm Permᴰ.nil h = refl
  sort_by-perm (Permᴰ.cons e p) h = ap₂ (insert_by key) e (sort_by-perm p (Pairwise-cons.0 h).1)
  sort_by-perm (Permᴰ.swap {a} {b} {l} e f) h =
      cc (e, f, insert_by_comm key a b (sort_by key l) ((Pairwise-cons.0 h).0 b mem-cons_self))
  sort_by-perm (Permᴰ.trans p q) h = sort_by-perm p h ∙ sort_by-perm q (DistinctKeys-perm p h)

  -- A sorted list that holds the same elements is the sort.
  pub sorted-perm :
      {xs ys : List A} → DistinctKeys xs → IsSortedFrom key 0 xs → Permᴰ xs ys → xs ≡ sort_by key ys
  sorted-perm {xs} h s p = sym (sort_by-sorted key 0 xs s) ∙ sort_by-perm p h
