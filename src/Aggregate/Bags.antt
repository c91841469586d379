-- ===== src/Aggregate/Bags.antt =====
-- `rebuild_from_events` on the events of an order without an order among them.
use mathlib.Core.Equiv.{IsContr}
use mathlib.Core.HLevel.{Discrete, hedberg, Σ_prop_path, Π_prop}
use mathlib.Core.List.{Permᴰ, mem-cons_self, not-mem-nil}
use mathlib.Core.List.Permᴰ
use mathlib.Core.Path.{fun_ext}
use mathlib.Core.Quot
use mathlib.Core.Quot.{Quot}
use event_sourcing_cqrs.Prelude.{
  String, str_eq, eq_iff, Bool-cases, arith, inl, inr, ◌≡◌, refl, sym, ◌∙◌, List, [], ◌∷◌,
  DistinctKeys, Memᴰ,
}
use event_sourcing_cqrs.Float.{Float}
use event_sourcing_cqrs.Events.{Event}
use event_sourcing_cqrs.Exec.{Result}
use event_sourcing_cqrs.Aggregate.{OrderAggregate, rebuild_from_events}
use event_sourcing_cqrs.Aggregate.Order.{version_of, rebuild_from_events-perm}

String-discrete : Discrete String
String-discrete s t = elim (Bool-cases (str_eq s t)) [
  | inl same ↦ yes ((eq_iff s t).0 same)
  | inr apart ↦ no (λ same. ground (arith, apart, (eq_iff s t).1 same))
]

module _ (F : Type 0) (order_id : String) where
  -- A listing of events of the order, no two of one version.
  pub record Listing : Type 0 where
    pub events : List (Event F)
    pub own : (e : Event F) → Memᴰ e events → e.aggregate_id ≡ order_id
    pub distinct : DistinctKeys version_of events

  -- Two listings list the same events.
  abbrev pub SameEvents : Listing → Listing → Type 0
  SameEvents l l' = Permᴰ l.events l'.events

  -- The events of the order, in no order.
  abbrev pub Bag : Type 0
  Bag = Quot SameEvents

module _ {F : Type 0} (float : Float F) (order_id : String) where
  abbrev rebuild_listing : Listing F order_id → Result (OrderAggregate F)
  rebuild_listing l = rebuild_from_events float l.events

  rebuild_listing-same :
      (l l' : Listing F order_id)
      → SameEvents F order_id l l'
      → rebuild_listing l ≡ rebuild_listing l'
  rebuild_listing-same l l' p = same l.events l'.events p l.distinct l.own l'.own
    where
      Own : List (Event F) → Type 0
      Own es = (e : Event F) → Memᴰ e es → e.aggregate_id ≡ order_id

      same :
          (es fs : List (Event F))
          → Permᴰ es fs
          → DistinctKeys version_of es
          → Own es
          → Own fs
          → rebuild_from_events float es ≡ rebuild_from_events float fs
      same [] [] p _ _ _ = refl
      same [] (f ∷ fs) p _ _ _ = absurd (not-mem-nil (Permᴰ.mem (Permᴰ.symm p) mem-cons_self))
      same (e ∷ es) [] p _ _ _ = absurd (not-mem-nil (Permᴰ.mem p mem-cons_self))
      same (e ∷ es) (f ∷ fs) p distinct own own' =
          rebuild_from_events-perm float e f es fs p distinct
            (own e (Memᴰ.head refl) ∙ sym (own' f (Memᴰ.head refl)))

  module _ (F_set : IsSet F) where
    Result-set : IsSet (Result (OrderAggregate F))
    Result-set = hlevel (F_set, hedberg String-discrete)

    -- `rebuild_from_events` for events in no order.
    unfoldable rebuild_bag : Bag F order_id → Result (OrderAggregate F)
    rebuild_bag = Quot.lift Result-set rebuild_listing rebuild_listing-same

    -- A listing is of events of one order, no two of one version, and a bag is what the
    -- listings that are permutations of one another have in common. When the amounts are a set,
    -- there is exactly one function on the bags that does with the bag of each listing what
    -- `rebuild_from_events` does with the listing.
    pub rebuild_from_events-bag : IsContr (
        (g : Bag F order_id → Result (OrderAggregate F)) × ((l : Listing F order_id)
          → g (Quot.mk l) ≡ rebuild_from_events float l.events))
    unfolding rebuild_bag
    rebuild_from_events-bag = (
      (rebuild_bag, λ l. refl),
      λ (g, agrees).
          Σ_prop_path (λ h. Π_prop (λ l. Result-set _ _))
            (fun_ext (Quot.ind (λ q. Result-set _ _) agrees)),
    )
