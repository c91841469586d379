-- ===== src/Tests/Search.antt =====
-- What the collection in memory finds: the sort of its documents, and the greatest.
use event_sourcing_cqrs.Prelude.{
  ℕ, ◌≤◌, ◌≡◌, ◌⊎◌, inl, inr, refl, sym, ap, ◌∙◌, Option, none, some, some-injective, List, [], ◌∷◌,
  arith, if◌then◌else◌, leb, sort_by, insert_by, Memᴰ, Permᴰ, Bool-cases, Option-cases,
}
use mathlib.Core.List.Memᴰ
use mathlib.Core.List.Permᴰ

module _ {D : Type 0} (key : D → ℕ) where
  insert_by-Permᴰ : (x : D) (xs : List D) → Permᴰ (insert_by key x xs) (x ∷ xs)
  unfolding insert_by
  insert_by-Permᴰ x [] = Permᴰ.refl (x ∷ [])
  insert_by-Permᴰ x (y ∷ ys) = elim (Bool-cases (leb (key x) (key y))) [
    | inl below ↦ rw below (Permᴰ.refl (x ∷ y ∷ ys))
    | inr above ↦
        rw above (Permᴰ.trans (Permᴰ.cons refl (insert_by-Permᴰ x ys)) (Permᴰ.swap refl refl))
  ]

  pub sort_by-Permᴰ : (xs : List D) → Permᴰ (sort_by key xs) xs
  unfolding sort_by
  sort_by-Permᴰ [] = Permᴰ.nil
  sort_by-Permᴰ (x ∷ xs) =
      Permᴰ.trans (insert_by-Permᴰ x (sort_by key xs)) (Permᴰ.cons refl (sort_by-Permᴰ xs))

  abbrev larger : D → Option D → Option D
  larger x none = some x
  larger x (some y) = if leb (key x) (key y) then some y else some x

  -- The document of the greatest key.
  unfoldable pub last_by : List D → Option D
  last_by [] = none
  last_by (x ∷ xs) = larger x (last_by xs)

  pub last_by-none : (xs : List D) → last_by xs ≡ none → xs ≡ []
  unfolding last_by
  last_by-none [] h = refl
  last_by-none (x ∷ xs) h = elim (Option-cases (last_by xs)) [
    | inl empty ↦ ground (arith, empty, h)
    | inr (y, found) ↦ elim (Bool-cases (leb (key x) (key y))) [
      | inl below ↦ ground (arith, found, below, h)
      | inr above ↦ ground (arith, found, above, h)
    ]
  ]

  -- The greater of a new document and the greatest of the rest.
  larger-bounds :
      (x y : D) (d : D)
      → larger x (some y) ≡ some d
      → ((d ≡ x) ⊎ (d ≡ y)) × (key x ≤ key d) × (key y ≤ key d)
  larger-bounds x y d h = elim (Bool-cases (leb (key x) (key y))) [
    | inl below ↦
        let same = some-injective _ _ (rw below at h) in
        (inr (sym same), rw (← same) (ground (arith, below)), rw (← same) (omega arith))
    | inr above ↦
        let same = some-injective _ _ (rw above at h) in
        (inl (sym same), rw (← same) (omega arith), rw (← same) (ground (arith, above)))
  ]

  pub last_by-mem : (xs : List D) (d : D) → last_by xs ≡ some d → Memᴰ d xs
  unfolding last_by
  last_by-mem [] d h = ground (arith, h)
  last_by-mem (x ∷ xs) d h = elim (Option-cases (last_by xs)) [
    | inl empty ↦ Memᴰ.head (sym (some-injective _ _ (rw empty at h)))
    | inr (y, found) ↦ elim (larger-bounds x y d (rw found at h)).0 [
      | inl own ↦ Memᴰ.head own
      | inr rest ↦ Memᴰ.tail (last_by-mem xs d (found ∙ ap some (sym rest)))
    ]
  ]

  pub last_by-greatest :
      (xs : List D) (d : D) → last_by xs ≡ some d → (x : D) → Memᴰ x xs → key x ≤ key d
  unfolding last_by
  last_by-greatest [] d h z inside = absurd (Memᴰ.not-nil inside)
  last_by-greatest (x ∷ xs) d h z (Memᴰ.head own) = elim (Option-cases (last_by xs)) [
    | inl empty ↦ omega (arith, ap key (own ∙ some-injective _ _ (rw empty at h)))
    | inr (y, found) ↦ omega (arith, ap key own, (larger-bounds x y d (rw found at h)).1)
  ]
  last_by-greatest (x ∷ xs) d h z (Memᴰ.tail inside) = elim (Option-cases (last_by xs)) [
    | inl empty ↦ absurd (Memᴰ.not-nil (rw (last_by-none xs empty) at inside))
    | inr (y, found) ↦
        omega (arith, last_by-greatest xs y found z inside, (larger-bounds x y d (rw found at h)).2)
  ]
