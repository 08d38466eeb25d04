-- ===== src/HeaderDownload/Penalty.antt =====
-- A peer that sends a header without its proof of work: what `headers` of src/headerdownload.rs asks
-- for, and what the network layer of src/p2p.rs does about it.
use murmel.Common.{◌≡◌, true, none, [], ◌∷◌, ◌++◌}
use murmel.Common.Map
use murmel.External.{External, Network}
use murmel.Network.{PeerId, PeerId-Eq}
use murmel.Network
use murmel.Timeout.{ExpectedReply-Eq}
use murmel.Timeout
use murmel.ChainDb.{ChainDb}
use murmel.ChainDb
use murmel.P2p.Net.{Net}
use murmel.HeaderDownload.{HeaderDownload}

-- The peer is out of the map, and its disconnection is dispatched.
pub record IsExpelled {Message : Type 0} (net : Net Message) (peer : PeerId) (r : Net Message)
    : Type 0 where
  pub gone : Map.get r.peers peer ≡ none
  pub dispatched : r.dispatched ≡ net.dispatched ++ (Network.disconnected peer true ∷ [])
