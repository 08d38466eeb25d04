-- ===== src/HeaderDownload/PenaltyTests.antt =====
-- A serving peer sends a header whose hash is above its target.
use murmel.Common.{◌^◌, true, false, none, some, List, [], ◌∷◌, ℕ-Eq}
use murmel.Common.Map
use murmel.External.{BlockHeader}
use murmel.Network.{PeerId, PeerId-Eq}
use murmel.Network
use murmel.Messages.{NetworkMessage}
use murmel.HeaderCache.Add
use murmel.ChainDb.{ChainDb}
use murmel.ChainDb
use murmel.P2p.{Peer}
use murmel.P2p.Net.{Net}
use murmel.P2p.Tests.{empty, pid}
use murmel.Fixtures.{block}

abbrev above_target : BlockHeader
above_target = block (2 ^ 250) 2 1

abbrev connected_peer : Peer NetworkMessage
connected_peer = record {
  read_buffer = empty;
  write_buffer = empty;
  got_verack = false;
  version = none;
  queue = [];
  writeable = false;
  connected = false;
  ban = 0;
  outgoing = true;
  address = some 4;
}

abbrev one_peer : Net NetworkMessage
one_peer = record {
  peers = (pid, connected_peer) ∷ [];
  height = 0;
  wakers = [];
  woken = [];
  dispatched = [];
}

-- A good header, and one without its proof of work that follows it.
abbrev good : List BlockHeader
good = block 2 1 1 ∷ []
