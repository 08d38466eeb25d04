-- ===== src/P2p/NodeTests.antt =====
-- Runs of the machine of src/p2p.rs at small inputs.
use mathlib.Core.Option
use murmel.Common.{ℕ, ◌≡◌, ◌≢◌, refl, true, none, some, List, [], ◌∷◌, ◌++◌, inl, Option}
use murmel.Common.Map
use murmel.Outcome.{Outcome, ok}
use murmel.Network.{PeerId, PeerId-Eq, P2PControl}
use murmel.P2p.{reregister_write, send}
use murmel.P2p.Net.{Net, control, disconnect, put_peer}
use murmel.P2p.Tests.{numbers, quiet_system, pid, net}
use murmel.P2p.Connect.{
  outgoing, refused, Dial, Phase, starting, handshaking, poll, connect, enter, shake, waits,
  already_connected, new_peer,
}
use murmel.P2p.Node.{Node, new_node, add_peer, poll_task, Reach, opens, goes, adds, polls}
use murmel.Network
use murmel.P2p.Sender.{send_random_network}
use murmel.P2p.Broadcast.{queued, broadcast-queued}
use murmel.P2p.Reachable.{Holds, Reach-Holds, Reach-unique}
use murmel.P2p.Wakes.{Polled, waiting, poll-Polled, disconnect-ends}

abbrev dial : Dial
dial = record {
  opening = none;
  accepting = refused (record { description = ""; display = "" });
  peer_addr = some 4;
  registering = none;
}

abbrev opened : Node ℕ
opened = add_peer numbers quiet_system 1 8 (new_node 6) "bitcoin" (outgoing 4)

abbrev first : PeerId
first = record { network = "bitcoin"; token = 0 }

abbrev polled : Node ℕ
polled = poll_task numbers quiet_system 1 8 opened first dial none

opened-Reach : Reach numbers quiet_system 1 8 6 opened
opened-Reach = goes opens (adds (new_node 6) "bitcoin" 4)

polled-Reach : Reach numbers quiet_system 1 8 6 polled
polled-Reach = goes opened-Reach (polls opened first dial none)

-- The connection is in the map, and waits for the handshake.
polled_tasks : polled.tasks ≡ (first, handshaking 4) ∷ []
unfolding new_node add_peer poll_task poll connect enter shake waits put_peer send reregister_write
    Map.get Map.insert already_connected new_peer
polled_tasks = refl

Reach-Holds_example : Holds numbers quiet_system 1 polled
Reach-Holds_example =
    Reach-Holds numbers quiet_system 1 8 (λ e. e ∷ []) (λ q e b. refl) 6 polled polled-Reach

first_starts : Map.get opened.tasks first ≡ some (starting 2 (outgoing 4))
unfolding new_node add_peer Map.get Map.insert
first_starts = refl

Reach-unique_example : Map.get opened.net.peers first ≡ none
Reach-unique_example =
    Reach-unique numbers quiet_system 1 8 (λ e. e ∷ []) (λ q e b. refl) 6 opened first 2
      (outgoing 4) opened-Reach first_starts

abbrev first_phase : Phase ℕ
first_phase = starting 2 (outgoing 4)

unfinished_start : (o : Outcome ℕ) → first_phase ≢ Phase.finished o
unfinished_start o h = cc

poll-Polled_example :
    Polled quiet_system first
      (poll quiet_system first opened.net first_phase dial none).0
      (poll quiet_system first opened.net first_phase dial none).1
poll-Polled_example =
    poll-Polled quiet_system first opened.net first_phase dial none unfinished_start

after_connecting : (poll quiet_system first opened.net first_phase dial none).1 ≡ handshaking 4
unfolding new_node add_peer poll connect enter shake waits put_peer send reregister_write Map.get
    Map.insert already_connected new_peer
after_connecting = refl

abbrev waiting_phase : Phase ℕ
waiting_phase = handshaking 4

unfinished_handshake : (o : Outcome ℕ) → waiting_phase ≢ Phase.finished o
unfinished_handshake o h = cc

polled_waits : Polled quiet_system first polled.net waiting_phase
unfolding new_node add_peer poll_task poll connect enter shake waits put_peer send reregister_write
    Map.get Map.insert already_connected new_peer
polled_waits = waiting 4 (inl refl) refl refl

disconnect-ends_example :
    (disconnect polled.net first true).woken ≡ polled.net.woken ++ (first ∷ [])
disconnect-ends_example =
    (disconnect-ends quiet_system first polled.net (handshaking 4) true dial none polled_waits
      unfinished_handshake).0

broadcast-queued_example :
    (n : Net ℕ) × (control quiet_system net (Network.broadcast 5) ≡ ok n)
    × (Map.get n.peers pid ≡ Option.map (queued quiet_system 5) (Map.get net.peers pid))
broadcast-queued_example = broadcast-queued quiet_system 5 net pid (λ q. refl)

abbrev random_one : List (P2PControl ℕ) × Option PeerId
random_one = send_random_network net [] 5 9
