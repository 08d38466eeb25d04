-- ===== src/Dispatcher.antt =====
-- `Dispatcher` of src/dispatcher.rs, and the senders of src/p2p.rs that it serves.
-- A channel is the list of the messages that were sent to it; it never blocks here, since waiting for
-- its receiver only delays. Sending on a channel whose receiver is gone panics.
pub mod Order
pub mod Tests
use murmel.Common.{ℕ, Bool, true, false, Option, none, some, List, [], ◌∷◌, ◌++◌}
use murmel.Outcome.{Outcome, ok, panic, ◌>>=◌}
use murmel.Network.{PeerMessage}

pub record Channel (Message : Type 0) : Type 0 where
  pub queue : List (PeerMessage Message)
  pub receiving : Bool

pub record PeerMessageSender (Message : Type 0) : Type 0 where
  pub sender : Option (Channel Message)

pub record Dispatcher (Message : Type 0) : Type 0 where
  pub listener : List (PeerMessageSender Message)

-- What happens to a dispatcher: a listener is added, or a message arrives.
pub data Event (Message : Type 0) : Type 0 where
  added : PeerMessageSender Message → Event Message
  arrived : PeerMessage Message → Event Message

module _ {Message : Type 0} where
  -- `PeerMessageSender::new` and `PeerMessageSender::dummy`.
  unfoldable pub sender_of : Channel Message → PeerMessageSender Message
  sender_of c = record { sender = some c }

  unfoldable pub dummy : PeerMessageSender Message
  dummy = record { sender = none }

  unfoldable pub send :
      PeerMessageSender Message → PeerMessage Message → Outcome (PeerMessageSender Message)
  send s m = elim s.sender [
    | none ↦ ok s
    | some c ↦ elim c.receiving [
      | true ↦ ok (record { sender = some (record c { queue = c.queue ++ (m ∷ []) }) })
      | false ↦ panic
    ]
  ]

  -- `Dispatcher::new`.
  unfoldable pub new : Dispatcher Message
  new = record { listener = [] }

  unfoldable pub add_listener : Dispatcher Message → PeerMessageSender Message → Dispatcher Message
  add_listener d s = record { listener = d.listener ++ (s ∷ []) }

  -- One message to every listener.
  unfoldable pub send_all :
      List (PeerMessageSender Message)
      → PeerMessage Message
      → Outcome (List (PeerMessageSender Message))
  send_all [] m = ok []
  send_all (s ∷ ss) m = send s m >>= (λ t. send_all ss m >>= (λ ts. ok (t ∷ ts)))

  -- `incoming_messages_loop` beside `add_listener`, which share the list under its lock.
  unfoldable pub incoming_messages_loop :
      Dispatcher Message → List (Event Message) → Outcome (Dispatcher Message)
  incoming_messages_loop d [] = ok d
  incoming_messages_loop d (added s ∷ es) = incoming_messages_loop (add_listener d s) es
  incoming_messages_loop d (arrived m ∷ es) =
      send_all d.listener m >>= (λ ss. incoming_messages_loop (record { listener = ss }) es)
