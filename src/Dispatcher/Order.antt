-- ===== src/Dispatcher/Order.antt =====
-- Each listener of the dispatcher in src/dispatcher.rs gets what arrives after it was added, in order.
use murmel.Common.{
  ◌≡◌, refl, sym, ap, ◌∙◌, true, Option, none, some, List, [], ◌∷◌, ◌++◌, append_assoc, append-nil,
  ap₂,
}
use murmel.Outcome.{ok}
use murmel.Network.{PeerMessage}
use murmel.Dispatcher.{
  Channel, PeerMessageSender, Dispatcher, send, add_listener, send_all, Event, added, arrived,
  incoming_messages_loop,
}

module _ {Message : Type 0} where
  -- A listener whose receiver is there, or a dummy.
  abbrev pub IsOpen : Option (Channel Message) → Type 0
  IsOpen none = Unit
  IsOpen (some c) = c.receiving ≡ true

  abbrev pub AllOpen : List (PeerMessageSender Message) → Type 0
  AllOpen [] = Unit
  AllOpen (s ∷ ss) = IsOpen s.sender × AllOpen ss

  -- What a channel holds once the given messages were sent to it, and a listener.
  abbrev pub filled :
      Option (Channel Message) → List (PeerMessage Message) → Option (Channel Message)
  filled none ms = none
  filled (some c) ms = some (record c { queue = c.queue ++ ms })

  abbrev pub received :
      PeerMessageSender Message → List (PeerMessage Message) → PeerMessageSender Message
  received s ms = record { sender = filled s.sender ms }

  abbrev pub all_received :
      List (PeerMessageSender Message)
      → List (PeerMessage Message)
      → List (PeerMessageSender Message)
  all_received [] ms = []
  all_received (s ∷ ss) ms = received s ms ∷ all_received ss ms

  abbrev pub arrivals : List (Event Message) → List (PeerMessage Message)
  arrivals [] = []
  arrivals (added s ∷ es) = arrivals es
  arrivals (arrived m ∷ es) = m ∷ arrivals es

  -- The listeners that are added, each with the messages that arrive later.
  abbrev pub joined : List (Event Message) → List (PeerMessageSender Message)
  joined [] = []
  joined (added s ∷ es) = received s (arrivals es) ∷ joined es
  joined (arrived m ∷ es) = joined es

  abbrev pub AddsOpen : List (Event Message) → Type 0
  AddsOpen [] = Unit
  AddsOpen (added s ∷ es) = IsOpen s.sender × AddsOpen es
  AddsOpen (arrived m ∷ es) = AddsOpen es

  filled-nil : (c : Option (Channel Message)) → filled c [] ≡ c
  filled-nil none = refl
  filled-nil (some c) = ap (λ q. some (record c { queue = q })) (append-nil c.queue)

  filled-filled :
      (c : Option (Channel Message)) (ms ns : List (PeerMessage Message))
      → filled (filled c ms) ns ≡ filled c (ms ++ ns)
  filled-filled none ms ns = refl
  filled-filled (some c) ms ns =
      ap (λ q. some (record c { queue = q })) (append_assoc c.queue ms ns)

  abbrev listens : Option (Channel Message) → PeerMessageSender Message
  listens c = record { sender = c }

  all_received-nil : (ss : List (PeerMessageSender Message)) → all_received ss [] ≡ ss
  all_received-nil [] = refl
  all_received-nil (s ∷ ss) = ap₂ ◌∷◌ (ap listens (filled-nil s.sender)) (all_received-nil ss)

  all_received-all_received :
      (ss : List (PeerMessageSender Message)) (ms ns : List (PeerMessage Message))
      → all_received (all_received ss ms) ns ≡ all_received ss (ms ++ ns)
  all_received-all_received [] ms ns = refl
  all_received-all_received (s ∷ ss) ms ns =
      ap₂ ◌∷◌ (ap listens (filled-filled s.sender ms ns)) (all_received-all_received ss ms ns)

  all_received-append :
      (ss ts : List (PeerMessageSender Message)) (ms : List (PeerMessage Message))
      → all_received (ss ++ ts) ms ≡ all_received ss ms ++ all_received ts ms
  all_received-append [] ts ms = refl
  all_received-append (s ∷ ss) ts ms = ap (received s ms ∷◌) (all_received-append ss ts ms)

  send-filled :
      (c : Option (Channel Message)) (m : PeerMessage Message)
      → IsOpen c
      → send (listens c) m ≡ ok (listens (filled c (m ∷ [])))
  unfolding send
  send-filled none m o = refl
  send-filled (some c) m o =
      rw (o, send)
        (ap (λ b. ok (listens (some (record { queue = c.queue ++ (m ∷ []); receiving = b })))) o)

  send_all-all_received :
      (ss : List (PeerMessageSender Message)) (m : PeerMessage Message)
      → AllOpen ss
      → send_all ss m ≡ ok (all_received ss (m ∷ []))
  unfolding send_all
  send_all-all_received [] m o = refl
  send_all-all_received (s ∷ ss) m (o, os) =
      rw (send-filled s.sender m o) (rw (send_all-all_received ss m os) refl)

  filled-IsOpen :
      (c : Option (Channel Message)) (ms : List (PeerMessage Message))
      → IsOpen c
      → IsOpen (filled c ms)
  filled-IsOpen none ms o = tt
  filled-IsOpen (some c) ms o = o

  all_received-AllOpen :
      (ss : List (PeerMessageSender Message)) (ms : List (PeerMessage Message))
      → AllOpen ss
      → AllOpen (all_received ss ms)
  all_received-AllOpen [] ms o = tt
  all_received-AllOpen (s ∷ ss) ms (o, os) =
      (filled-IsOpen s.sender ms o, all_received-AllOpen ss ms os)

  AllOpen-append :
      (ss : List (PeerMessageSender Message)) (s : PeerMessageSender Message)
      → AllOpen ss
      → IsOpen s.sender
      → AllOpen (ss ++ (s ∷ []))
  AllOpen-append [] s os o = (o, tt)
  AllOpen-append (t ∷ ss) s (p, os) o = (p, AllOpen-append ss s os o)

  -- The dispatcher delivers every message to every listener that was added before the message arrived,
  -- each once and in the order of arrival, and to no later listener; dummies stay as they are. Neither
  -- a listener nor a message is lost, and there is no panic, if the receivers of all listeners are
  -- there.
  pub incoming_messages_loop_lem :
      (d : Dispatcher Message) (es : List (Event Message))
      → AllOpen d.listener
      → AddsOpen es
      → incoming_messages_loop d es
        ≡ ok (record { listener = all_received d.listener (arrivals es) ++ joined es })
  unfolding incoming_messages_loop add_listener
  incoming_messages_loop_lem d [] o a =
      ap (λ ss. ok (record { listener = ss }))
        (sym (append-nil (all_received d.listener []) ∙ all_received-nil d.listener))
  incoming_messages_loop_lem d (added s ∷ es) o (p, a) =
      incoming_messages_loop_lem (add_listener d s) es (AllOpen-append d.listener s o p) a
      ∙ ap (λ ss. ok (record { listener = ss ++ joined es }))
          (all_received-append d.listener (s ∷ []) (arrivals es))
      ∙ ap (λ ss. ok (record { listener = ss }))
          (append_assoc (all_received d.listener (arrivals es)) (received s (arrivals es) ∷ [])
            (joined es))
  incoming_messages_loop_lem d (arrived m ∷ es) o a =
      let next = all_received d.listener (m ∷ []) in
      rw (send_all-all_received d.listener m o) (
        incoming_messages_loop_lem (record { listener = next }) es
          (all_received-AllOpen d.listener (m ∷ []) o) a
        ∙ ap (λ ss. ok (record { listener = ss ++ joined es }))
            (all_received-all_received d.listener (m ∷ []) (arrivals es)))
