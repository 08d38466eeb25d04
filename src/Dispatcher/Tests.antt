-- ===== src/Dispatcher/Tests.antt =====
-- Runs of the dispatcher of src/dispatcher.rs at small inputs.
use murmel.Common.{ℕ, ◌≡◌, true, some, List, [], ◌∷◌, refl}
use murmel.Outcome.{ok}
use murmel.Network.{PeerMessage}
use murmel.Network
use murmel.Dispatcher.{PeerMessageSender, Event, added, arrived, incoming_messages_loop}
use murmel.Dispatcher.Order.{incoming_messages_loop_lem}

abbrev early : PeerMessageSender ℕ
early = record { sender = some (record { queue = []; receiving = true }) }

abbrev first : PeerMessage ℕ
first = Network.outgoing 1

abbrev second : PeerMessage ℕ
second = Network.outgoing 2

abbrev events : List (Event ℕ)
events = added early ∷ arrived first ∷ added early ∷ arrived second ∷ []

incoming_messages_loop_lem_example :
    incoming_messages_loop (record { listener = [] }) events
    ≡ ok (record {
      listener =
          (record { sender = some (record { queue = first ∷ second ∷ []; receiving = true }) })
          ∷ (record { sender = some (record { queue = second ∷ []; receiving = true }) })
          ∷ [];
    })
incoming_messages_loop_lem_example =
    incoming_messages_loop_lem (record { listener = [] }) events tt (refl, (refl, tt))
