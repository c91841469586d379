-- ===== src/Prelude/Sort.antt =====
-- Python's `sorted(xs, key=...)` on number keys: the stable sort, as insertion from the right.
use Prim.Native.Nat.{ℕ, ◌≤◌}
use mathlib.Core.Path.{◌≡◌, refl}
use mathlib.Core.Logic.{◌≢◌}
use mathlib.Core.List.{List, [], ◌∷◌}
use native.Mathlib.Omega.{arith}
use event_sourcing_cqrs.Prelude.Tests.{leb, if◌then◌else◌}

module _ {ℓ} {A : Type ℓ} (key : A → ℕ) where
  unfoldable pub insert_by : A → List A → List A
  insert_by x [] = x ∷ []
  insert_by x (y ∷ ys) = if leb (key x) (key y) then x ∷ y ∷ ys else y ∷ insert_by x ys

  unfoldable pub sort_by : List A → List A
  sort_by [] = []
  sort_by (x ∷ xs) = insert_by x (sort_by xs)

  -- No key is below the one before it.
  abbrev pub IsSortedFrom : ℕ → List A → Type 0
  IsSortedFrom low [] = Unit
  IsSortedFrom low (x ∷ xs) = (low ≤ key x) × IsSortedFrom (key x) xs

  insert_by-IsSortedFrom :
      (low : ℕ) (x : A) (xs : List A)
      → low ≤ key x
      → IsSortedFrom low xs
      → IsSortedFrom low (insert_by x xs)
  unfolding insert_by
  insert_by-IsSortedFrom low x [] p h = (p, tt)
  insert_by-IsSortedFrom low x (y ∷ ys) p h = ground (arith, insert_by-IsSortedFrom (key y) x ys)

  pub sort_by-IsSortedFrom : (xs : List A) → IsSortedFrom 0 (sort_by xs)
  unfolding sort_by
  sort_by-IsSortedFrom [] = tt
  sort_by-IsSortedFrom (x ∷ xs) =
      insert_by-IsSortedFrom 0 x (sort_by xs) (omega arith) (sort_by-IsSortedFrom xs)

  -- Sorting leaves a sorted list as it is.
  pub sort_by-sorted : (low : ℕ) (xs : List A) → IsSortedFrom low xs → sort_by xs ≡ xs
  unfolding sort_by insert_by
  sort_by-sorted low [] h = refl
  sort_by-sorted low (x ∷ []) h = refl
  sort_by-sorted low (x ∷ y ∷ ys) h = ground (arith, sort_by-sorted (key x) (y ∷ ys) h.1)

  -- Elements of different keys are inserted in either order.
  pub insert_by_comm :
      (x y : A) (xs : List A)
      → key x ≢ key y
      → insert_by x (insert_by y xs) ≡ insert_by y (insert_by x xs)
  unfolding insert_by
  insert_by_comm x y [] h = ground arith
  insert_by_comm x y (z ∷ zs) h = ground (arith, insert_by_comm x y zs h)
