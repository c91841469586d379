-- ===== src/Services/Connections.antt =====
-- The clients that a process connects to its servers. To connect one closes none, and to close one
-- opens none; a call that raises may have had its effect or not.
use event_sourcing_cqrs.Prelude.{
  ◌≡◌, refl, ap, ◌⊎◌, inl, inr, Bool, true, false, List, [], ◌∷◌, ◌++◌, Memᴰ,
}
use event_sourcing_cqrs.Exec.{Exec, Error, ok, err, pure, ◌>>◌}
use event_sourcing_cqrs.Exec.Chain.{bind-cases}

pub data Client : Type 0 where
  kafka_producer kafka_consumer redis postgres mongo : Client

pub record Connections : Type 1 where
  pub State : Type 0
  pub is_open : Client → State → Bool
  pub connect : Client → Exec State (Unit {0})
  pub close : Client → Exec State (Unit {0})
  pub connect_returns :
      (c : Client) (s : State) → (connect c s).0 ≡ ok tt → is_open c (connect c s).1 ≡ true
  pub connect_keeps :
      (c d : Client) (s : State) → is_open d s ≡ true → is_open d (connect c s).1 ≡ true
  pub close_returns :
      (c : Client) (s : State) → (close c s).0 ≡ ok tt → is_open c (close c s).1 ≡ false
  pub close_keeps :
      (c d : Client) (s : State) → is_open d s ≡ false → is_open d (close c s).1 ≡ false

module _ (h : Connections) where
  -- A call for each client, one after another, until one raises.
  pub each : (Client → Exec h.State (Unit {0})) → List Client → Exec h.State (Unit {0})
  each act [] = pure tt
  each act (c ∷ cs) = let rest = each act cs in act c >> rest

  abbrev pub connect_all : List Client → Exec h.State (Unit {0})
  connect_all = each h.connect

  abbrev pub close_all : List Client → Exec h.State (Unit {0})
  close_all = each h.close

  -- All clients of a list are in one state.
  abbrev pub AllAre : Bool → List Client → h.State → Type 0
  AllAre b cs s = (c : Client) → Memᴰ c cs → h.is_open c s ≡ b

  -- The calls for a first part of the clients returned, and that for the next one raised, which was
  -- the last call. The clients before it are in the state `b`.
  pub record GaveUp (act : Client → Exec h.State (Unit {0})) (b : Bool) (cs : List Client)
      (s : h.State) (e : Error) (s' : h.State) : Type 0 where
    pub before : List Client
    pub failing : Client
    pub after : List Client
    pub split : cs ≡ before ++ failing ∷ after
    pub returned : (each act before s).0 ≡ ok tt
    pub raised : (act failing (each act before s).1).0 ≡ err e
    pub state : s' ≡ (act failing (each act before s).1).1
    pub reached : AllAre b before s'

  AllAre-cons :
      (b : Bool) (c : Client) (cs : List Client) (s : h.State)
      → h.is_open c s ≡ b
      → AllAre b cs s
      → AllAre b (c ∷ cs) s
  AllAre-cons b c cs s first others d (Memᴰ.head e) = rw e first
  AllAre-cons b c cs s first others d (Memᴰ.tail m) = others d m

  module _ (act : Client → Exec h.State (Unit {0})) (b : Bool)
      (does : (c : Client) (s : h.State) → (act c s).0 ≡ ok tt → h.is_open c (act c s).1 ≡ b)
      (keeps : (c d : Client) (s : h.State) → h.is_open d s ≡ b → h.is_open d (act c s).1 ≡ b) where
    each-keeps :
        (cs : List Client) (d : Client) (s : h.State)
        → h.is_open d s ≡ b
        → h.is_open d (each act cs s).1 ≡ b
    unfolding each
    each-keeps [] d s reached = reached
    each-keeps (c ∷ cs) d s reached = elim (bind-cases (act c) (λ _. each act cs) s) [
      | inr (_, _, same) ↦ rw same (keeps c d s reached)
      | inl (_, _, same) ↦ rw same (each-keeps cs d (act c s).1 (keeps c d s reached))
    ]

    GaveUp-cons :
        (c : Client) (cs : List Client) (s : h.State) (e : Error) (s' : h.State)
        → (act c s).0 ≡ ok tt
        → h.is_open c s' ≡ b
        → GaveUp act b cs (act c s).1 e s'
        → GaveUp act b (c ∷ cs) s e s'
    unfolding each
    GaveUp-cons c cs s e s' done first g = record {
      before = c ∷ g.before;
      failing = g.failing;
      after = g.after;
      split = ap (λ xs. c ∷ xs) g.split;
      returned = rw done g.returned;
      raised = rw done g.raised;
      state = rw done g.state;
      reached = AllAre-cons b c g.before s' first g.reached;
    }

    -- Every call returns and all clients are in the state `b`, or one raises.
    each-cases :
        (cs : List Client) (s : h.State)
        → ((each act cs s).0 ≡ ok tt) × AllAre b cs (each act cs s).1
          ⊎ (e : Error) × ((each act cs s).0 ≡ err e) × GaveUp act b cs s e (each act cs s).1
    unfolding each
    each-cases [] s = inl (refl, λ c m. elim m [ ])
    each-cases (c ∷ cs) s = elim (bind-cases (act c) (λ _. each act cs) s) [
      | inr (e, failed, same) ↦ rw same (
          inr (
            e,
            refl,
            record {
              before = [];
              failing = c;
              after = cs;
              split = refl;
              returned = refl;
              raised = failed;
              state = refl;
              reached = λ d m. elim m [ ];
            },
          ))
      | inl (_, done, same) ↦
          let first = each-keeps cs c (act c s).1 (does c s done) in
          rw same (elim (each-cases cs (act c s).1) [
            | inl (all, reached) ↦ inl (all, AllAre-cons b c cs _ first reached)
            | inr (e, failed, g) ↦ inr (e, failed, GaveUp-cons c cs s e _ done first g)
          ])
    ]

  -- `connect_all` ends with every client open, or at the first that raises.
  pub connect_all-cases :
      (cs : List Client) (s : h.State)
      → ((connect_all cs s).0 ≡ ok tt) × AllAre true cs (connect_all cs s).1
        ⊎ (e : Error) × ((connect_all cs s).0 ≡ err e)
          × GaveUp h.connect true cs s e (connect_all cs s).1
  connect_all-cases = each-cases h.connect true h.connect_returns h.connect_keeps

  -- `close_all` ends with every client closed, or at the first that raises.
  pub close_all-cases :
      (cs : List Client) (s : h.State)
      → ((close_all cs s).0 ≡ ok tt) × AllAre false cs (close_all cs s).1
        ⊎ (e : Error) × ((close_all cs s).0 ≡ err e)
          × GaveUp h.close false cs s e (close_all cs s).1
  close_all-cases = each-cases h.close false h.close_returns h.close_keeps
