-- ===== src/Services/Queue.antt =====
-- An SQS queue: the bodies of the messages in it, each with a receipt handle.
use event_sourcing_cqrs.Prelude.{String, ◌≡◌, ◌⊎◌, List, [], ◌∷◌, ◌++◌, str_eq, not, select, Memᴰ}
use event_sourcing_cqrs.Exec.{Exec, Error, ok, err}

pub record Received (M : Type 0) : Type 0 where
  pub body : M
  pub receipt_handle : String

abbrev pub without : {M : Type 0} → String → List (Received M) → List (Received M)
without handle = select (λ m. not (str_eq m.receipt_handle handle))

pub record Queue (M : Type 0) : Type 1 where
  pub State : Type 0
  pub messages : State → List (Received M)
  pub send_message : M → Exec State (Unit {0})
  -- `receive_message`, up to ten of the messages; they stay in the queue until they are deleted
  pub receive_message : Exec State (List (Received M))
  pub delete_message : String → Exec State (Unit {0})
  -- A receipt handle names one message.
  pub handles_unique :
      (s : State) (m n : Received M)
      → Memᴰ m (messages s)
      → Memᴰ n (messages s)
      → m.receipt_handle ≡ n.receipt_handle
      → m ≡ n
  pub send_message_returns :
      (m : M) (s : State)
      → (send_message m s).0 ≡ ok tt
      → (handle : String) × (messages (send_message m s).1
          ≡ messages s ++ record { body = m; receipt_handle = handle } ∷ [])
  pub receive_message_keeps : (s : State) → messages (receive_message s).1 ≡ messages s
  pub receive_message_returns :
      (s : State) (found : List (Received M)) (m : Received M)
      → (receive_message s).0 ≡ ok found
      → Memᴰ m found
      → Memᴰ m (messages s)
  pub delete_message_returns :
      (handle : String) (s : State)
      → (delete_message handle s).0 ≡ ok tt
      → messages (delete_message handle s).1 ≡ without handle (messages s)
  pub delete_message_raises :
      (handle : String) (s : State) (e : Error)
      → (delete_message handle s).0 ≡ err e
      → (messages (delete_message handle s).1 ≡ messages s)
        ⊎ (messages (delete_message handle s).1 ≡ without handle (messages s))
