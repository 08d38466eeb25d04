-- ===== src/Ping.antt =====
-- `Ping` of src/ping.rs: pings the peers that are not asked anything else. Its state is the table of
-- nonces it has asked, the shared timeouts, and the log of what it sends. The time, the peers and the
-- random nonces are arguments.
pub mod Busy
pub mod Fair
pub mod Tests
use murmel.Common.{ℕ, none, some, List, [], ◌∷◌, ◌++◌, nat_eq, if◌then◌else◌}
use murmel.Common.Map
use murmel.Network.{PeerId, PeerId-Eq, PeerMessage, P2PControl}
use murmel.Network
use murmel.Messages.{NetworkMessage}
use murmel.Messages
use murmel.Timeout.{Timeout, ExpectedReply, ExpectedReply-Eq}
use murmel.Timeout
use murmel.Timeout.Bans.{Call, call}

pub record Ping : Type 0 where
  pub timeout : Timeout ExpectedReply
  pub asked : List (PeerId × ℕ)
  pub controls : List (P2PControl NetworkMessage)

-- What the loop of `run` meets: a message, a minute without one, with the peers and their random
-- numbers, or a call with which another thread changes the shared timeouts.
pub data Event : Type 0 where
  message : ℕ → PeerMessage NetworkMessage → Event
  pause : ℕ → List (PeerId × ℕ) → Event
  shared : Call ExpectedReply → Event

-- `new`, on the timeouts it shares.
unfoldable pub new : Timeout ExpectedReply → Ping
new t = record { timeout = t; asked = []; controls = [] }

-- A pong: the nonce asked is removed, and counts if it is the one that comes back.
unfoldable pub on_pong : Ping → ℕ → PeerId → ℕ → Ping
on_pong s now pid n =
    let removed = record s { asked = Map.remove s.asked pid } in
    elim (Map.get s.asked pid) [
      | none ↦ removed
      | some m ↦
          if nat_eq m n
          then record removed { timeout = Timeout.received s.timeout now pid 1 Timeout.pong }
          else removed
    ]

unfoldable pub on_message : Ping → ℕ → PeerMessage NetworkMessage → Ping
unfolding on_pong
on_message s now (Network.disconnected pid banned) = record s {
  timeout = Timeout.forget s.timeout pid;
  asked = Map.remove s.asked pid;
}
on_message s now (Network.incoming pid m) = elim m [ Messages.pong n ↦ on_pong s now pid n | _ ↦ s ]
on_message s now (Network.connected pid addr) = s
on_message s now (Network.outgoing m) = s

-- A peer with the random number drawn for it.
unfoldable pub ask : Ping → ℕ → PeerId → ℕ → Ping
ask s now peer nonce = if Timeout.is_busy s.timeout peer then s else record {
  timeout = Timeout.expect s.timeout now peer 1 Timeout.pong;
  asked = Map.insert s.asked peer nonce;
  controls = s.controls ++ (Network.send peer (Messages.ping nonce) ∷ []);
}

unfoldable pub ask_all : Ping → ℕ → List (PeerId × ℕ) → Ping
unfolding ask
ask_all s now [] = s
ask_all s now ((peer, nonce) ∷ ps) = ask_all (ask s now peer nonce) now ps

-- No message for a minute.
unfoldable pub on_pause : Ping → ℕ → List (PeerId × ℕ) → Ping
unfolding ask_all
on_pause s now peers =
    let (t, bans) = Timeout.check s.timeout now (Timeout.pong ∷ []) in
    ask_all (record s { timeout = t; controls = s.controls ++ bans }) now peers

-- `run`, on what it receives, the pauses, and what others do to the timeouts in between.
unfoldable pub run : Ping → List Event → Ping
run s [] = s
run s (message now m ∷ es) = run (on_message s now m) es
run s (pause now peers ∷ es) = run (on_pause s now peers) es
run s (shared c ∷ es) = run (record s { timeout = call s.timeout c }) es
