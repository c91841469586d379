-- ===== src/Prelude/Newest.antt =====
-- Sorting by a number, the greatest first, and pages of a list: `ORDER BY ... DESC LIMIT ... OFFSET ...`
-- and `sort(key, -1).limit(n)`.
use mathlib.Core.List.Permᴰ
use Prim.Native.Nat.{ℕ, zero, suc, ◌≤◌}
use mathlib.Core.Path.{refl}
use mathlib.Core.Logic.{inl, inr}
use mathlib.Core.List.{List, [], ◌∷◌, Permᴰ}
use native.Mathlib.Omega.{arith}
use event_sourcing_cqrs.Prelude.Tests.{leb, if◌then◌else◌, Bool-cases}

module _ {A : Type 0} where
  -- the first `n` elements
  unfoldable pub take : ℕ → List A → List A
  take zero xs = []
  take (suc n) [] = []
  take (suc n) (x ∷ xs) = x ∷ take n xs

  -- the elements after the first `n`
  unfoldable pub drop : ℕ → List A → List A
  drop zero xs = xs
  drop (suc n) [] = []
  drop (suc n) (x ∷ xs) = drop n xs

  abbrev pub page : ℕ → ℕ → List A → List A
  page limit offset xs = take limit (drop offset xs)

module _ {A : Type 0} (time : A → ℕ) where
  unfoldable pub insert_newest : A → List A → List A
  insert_newest x [] = x ∷ []
  insert_newest x (y ∷ ys) = if leb (time y) (time x) then x ∷ y ∷ ys else y ∷ insert_newest x ys

  unfoldable pub newest_first : List A → List A
  newest_first [] = []
  newest_first (x ∷ xs) = insert_newest x (newest_first xs)

  abbrev IsNewestBelow : ℕ → List A → Type 0
  IsNewestBelow high [] = Unit
  IsNewestBelow high (x ∷ xs) = (time x ≤ high) × IsNewestBelow (time x) xs

  -- No time is above the one before it.
  abbrev pub IsNewestFirst : List A → Type 0
  IsNewestFirst [] = Unit
  IsNewestFirst (x ∷ xs) = IsNewestBelow (time x) xs

  insert_newest-IsNewestBelow :
      (high : ℕ) (x : A) (xs : List A)
      → time x ≤ high
      → IsNewestBelow high xs
      → IsNewestBelow high (insert_newest x xs)
  unfolding insert_newest
  insert_newest-IsNewestBelow high x [] p h = (p, tt)
  insert_newest-IsNewestBelow high x (y ∷ ys) p h =
      ground (arith, insert_newest-IsNewestBelow (time y) x ys)

  insert_newest-IsNewestFirst :
      (x : A) (xs : List A) → IsNewestFirst xs → IsNewestFirst (insert_newest x xs)
  unfolding insert_newest
  insert_newest-IsNewestFirst x [] h = tt
  insert_newest-IsNewestFirst x (y ∷ ys) h =
      ground (arith, insert_newest-IsNewestBelow (time y) x ys)

  pub newest_first-IsNewestFirst : (xs : List A) → IsNewestFirst (newest_first xs)
  unfolding newest_first
  newest_first-IsNewestFirst [] = tt
  newest_first-IsNewestFirst (x ∷ xs) =
      insert_newest-IsNewestFirst x (newest_first xs) (newest_first-IsNewestFirst xs)

  insert_newest-Permᴰ : (x : A) (xs : List A) → Permᴰ (insert_newest x xs) (x ∷ xs)
  unfolding insert_newest
  insert_newest-Permᴰ x [] = Permᴰ.refl (x ∷ [])
  insert_newest-Permᴰ x (y ∷ ys) = elim (Bool-cases (leb (time y) (time x))) [
    | inl older ↦ rw older (Permᴰ.refl (x ∷ y ∷ ys))
    | inr newer ↦
        rw newer (Permᴰ.trans (Permᴰ.cons refl (insert_newest-Permᴰ x ys)) (Permᴰ.swap refl refl))
  ]

  pub newest_first-Permᴰ : (xs : List A) → Permᴰ (newest_first xs) xs
  unfolding newest_first
  newest_first-Permᴰ [] = Permᴰ.nil
  newest_first-Permᴰ (x ∷ xs) =
      Permᴰ.trans (insert_newest-Permᴰ x (newest_first xs))
        (Permᴰ.cons refl (newest_first-Permᴰ xs))
