-- ===== src/Commands/Race/Safety.antt =====
-- The stored histories under interleaved commands.
use mathlib.Core.List.{append-nil, append_assoc}
use event_sourcing_cqrs.Prelude.{String, ◌≡◌, refl, sym, inl, inr, subst, List, [], ◌∷◌, ◌++◌}
use event_sourcing_cqrs.Events.{Event}
use event_sourcing_cqrs.EventStore.{Document, append, get_latest_version, of_aggregate, version_key}
use event_sourcing_cqrs.EventStore.History.{IsLegal, IsLegal-nil, IsNext, new_document}
use event_sourcing_cqrs.EventStore.Append.{append_outcome, append-IsLegal}
use event_sourcing_cqrs.Commands.{Services, World}
use event_sourcing_cqrs.Commands.Create.{IsNext-created}
use event_sourcing_cqrs.Exec.Chain.{bind-keeps}
use event_sourcing_cqrs.Commands.Load.{load_aggregate-keeps}
use event_sourcing_cqrs.Commands.Legal.{docs_of}
use event_sourcing_cqrs.Commands.Race.{
  Prepared-IsNext, System, Step, look_key, latest, draw, map_key, load, prepare, store, send, Reach,
  here, next,
}

module _ {F : Type 0} where
  -- A pending event was the next of its order in an earlier store.
  abbrev WasNext : List (Document F) → Event F → Type 0
  WasNext docs e =
      (old : List (Document F)) × (more : List (Document F)) × (docs ≡ old ++ more) × IsNext e old

  abbrev Each : List (Document F) → List (Event F) → Type 0
  Each docs [] = Unit
  Each docs (e ∷ es) = WasNext docs e × Each docs es

  Each-grow :
      (docs extra : List (Document F)) (es : List (Event F))
      → Each docs es
      → Each (docs ++ extra) es
  Each-grow docs extra [] h = tt
  Each-grow docs extra (e ∷ es) ((old, more, since, was), rest) =
      ((old, more ++ extra, rw (since, append_assoc), was), Each-grow docs extra es rest)

  Each-split :
      (docs : List (Document F)) (e : Event F) (before after : List (Event F))
      → Each docs (before ++ e ∷ after)
      → WasNext docs e × Each docs (before ++ after)
  Each-split docs e [] after h = h
  Each-split docs e (b ∷ before) after (first, rest) =
      let (found, others) = Each-split docs e before after rest in (found, (first, others))

module _ {F : Type 0} (sv : Services F) where
  pub record IsSafe (sys : System sv) : Type 0 where
    pub legal : IsLegal (docs_of sv sys.world)
    were_next : Each (docs_of sv sys.world) sys.pending

  store-IsSafe :
      (sys : System sv) (e : Event F) (before after : List (Event F))
      → sys.pending ≡ before ++ e ∷ after
      → IsSafe sys
      → IsSafe (record {
        world = record { mongo = (append sv.mongo e sys.world.mongo).1; bus = sys.world.bus };
        pending = before ++ after;
      })
  store-IsSafe sys e before after split safe =
      let docs = docs_of sv sys.world in
      let ((old, more, since, was), rest) =
        Each-split docs e before after (rw split at safe.were_next) in
      record {
        legal = append-IsLegal sv.mongo e sys.world.mongo old more since safe.legal was;
        were_next = elim (append_outcome sv.mongo e sys.world.mongo) [
          | inl same ↦ rw same rest
          | inr (_, stored) ↦
              rw stored (Each-grow docs (new_document e ∷ []) (before ++ after) rest)
        ];
      }

  get_latest_version-keeps :
      (order_id : String) (s : sv.mongo.State)
      → sv.mongo.docs (get_latest_version sv.mongo order_id s).1 ≡ sv.mongo.docs s
  unfolding get_latest_version
  get_latest_version-keeps order_id =
      bind-keeps sv.mongo.docs (sv.mongo.find_last (of_aggregate order_id) version_key) _
        (sv.mongo.find_last_keeps (of_aggregate order_id) version_key) (λ doc s. refl)

  -- A step that stores nothing and prepares nothing.
  same-IsSafe :
      (sys : System sv) (w : World sv)
      → docs_of sv w ≡ docs_of sv sys.world
      → IsSafe sys
      → IsSafe (record sys { world = w })
  same-IsSafe sys w same safe = record {
    legal = rw same safe.legal;
    were_next = subst (λ docs. Each docs sys.pending) (sym same) safe.were_next;
  }

  Step-IsSafe : {sys after : System sv} → Step sv sys after → IsSafe sys → IsSafe after
  Step-IsSafe {sys} (look_key req) safe = same-IsSafe sys _ refl safe
  Step-IsSafe {sys} (latest order_id) safe =
      same-IsSafe sys _ (get_latest_version-keeps order_id sys.world.mongo) safe
  Step-IsSafe {sys} (draw stamp order_id req unused) safe =
      let docs = docs_of sv sys.world in
      record {
        legal = safe.legal;
        were_next = (
          (docs, [], sym (append-nil _), IsNext-created sv stamp order_id _ _ docs unused),
          safe.were_next,
        );
      }
  Step-IsSafe {sys} (map_key req order_id) safe = same-IsSafe sys _ refl safe
  Step-IsSafe {sys} (load order_id) safe =
      same-IsSafe sys _ (load_aggregate-keeps sv order_id sys.world).0 safe
  Step-IsSafe {sys} (prepare order_id e prepared) safe =
      let same = (load_aggregate-keeps sv order_id sys.world).0 in
      record {
        legal = rw same safe.legal;
        were_next =
            subst (λ docs. Each docs (e ∷ sys.pending)) (sym same)
              (
                (
                  docs_of sv sys.world,
                  [],
                  sym (append-nil _),
                  Prepared-IsNext sv prepared safe.legal,
                ),
                safe.were_next,
              );
      }
  Step-IsSafe {sys} (store e before after split) safe = store-IsSafe sys e before after split safe
  Step-IsSafe (send e) safe = record { legal = safe.legal; were_next = safe.were_next }

  Reach-IsSafe : {start sys : System sv} → IsSafe start → Reach sv start sys → IsSafe sys
  Reach-IsSafe safe here = safe
  Reach-IsSafe safe (next r step) = Step-IsSafe step (Reach-IsSafe safe r)

  -- Take any interleaving of the steps of any number of commands, which starts with an empty
  -- collection and no command under way, and in which `create_order` draws order ids that no
  -- stored event has. Calls may fail in it, before or after their effect. The stored history of
  -- every order then follows the lifecycle, with versions that count from 1.
  pub Reach-IsLegal :
      (start sys : System sv)
      → docs_of sv start.world ≡ []
      → start.pending ≡ []
      → Reach sv start sys
      → IsLegal (docs_of sv sys.world)
  Reach-IsLegal start sys empty idle r =
      (Reach-IsSafe
        (record {
          legal = subst IsLegal (sym empty) IsLegal-nil;
          were_next = subst (Each (docs_of sv start.world)) (sym idle) tt;
        })
        r).legal
