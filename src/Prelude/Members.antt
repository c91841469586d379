-- ===== src/Prelude/Members.antt =====
-- Membership, as data.
use mathlib.Core.Bool.{Bool, true}
use mathlib.Core.List.{List, [], ◌∷◌, ◌++◌, Memᴰ}
use mathlib.Core.Logic.{inl, inr}
use mathlib.Core.Path.{◌≡◌, refl}
use event_sourcing_cqrs.Prelude.Tests.{select, Bool-cases}

-- A longer list still holds what it held, and its new last element.
pub mem-append_left : {A : Type 0} (a : A) (xs ys : List A) → Memᴰ a xs → Memᴰ a (xs ++ ys)
mem-append_left a [] ys m = elim m [ ]
mem-append_left a (x ∷ xs) ys (Memᴰ.head e) = Memᴰ.head e
mem-append_left a (x ∷ xs) ys (Memᴰ.tail m) = Memᴰ.tail (mem-append_left a xs ys m)

pub mem-snoc : {A : Type 0} (xs : List A) (a : A) → Memᴰ a (xs ++ a ∷ [])
mem-snoc [] a = Memᴰ.head refl
mem-snoc (x ∷ xs) a = Memᴰ.tail (mem-snoc xs a)

pub mem-select :
    {A : Type 0} (p : A → Bool) (a : A) (xs : List A)
    → Memᴰ a xs
    → p a ≡ true
    → Memᴰ a (select p xs)
unfolding select
mem-select p a [] m h = elim m [ ]
mem-select p a (x ∷ xs) (Memᴰ.head e) h = rw (← e) (rw h (Memᴰ.head refl))
mem-select p a (x ∷ xs) (Memᴰ.tail m) h = elim (Bool-cases (p x)) [
  | inl kept ↦ rw kept (Memᴰ.tail (mem-select p a xs m h))
  | inr dropped ↦ rw dropped (mem-select p a xs m h)
]
