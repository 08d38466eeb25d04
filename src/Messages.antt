-- ===== src/Messages.antt =====
-- The Bitcoin messages that src/p2p.rs, src/ping.rs and src/headerdownload.rs build or look at.
-- `other` stands for the messages that none of them names.
use murmel.Common.{ℕ, Bool, true, false, Option, none, some, List}
use murmel.External.{BlockHeader}
use murmel.Network.{VersionCarrier}

-- `Inventory`; only the type `Block` is told apart.
pub data InvType : Type 0 where
  block other_type : InvType

pub record Inventory : Type 0 where
  pub inv_type : InvType
  pub hash : ℕ

-- `NetworkMessage`. A `VersionMessage` has the fields of a `VersionCarrier`; its `timestamp` and
-- `start_height` are the two's complement of signed numbers.
pub data NetworkMessage : Type 0 where
  version : VersionCarrier → NetworkMessage
  verack : NetworkMessage
  ping pong : ℕ → NetworkMessage
  headers : List BlockHeader → NetworkMessage
  inv : List Inventory → NetworkMessage
  get_headers : List ℕ → ℕ → NetworkMessage
  other : ℕ → NetworkMessage

-- `impl Version for NetworkMessage`. The casts to unsigned numbers keep the two's complement.
unfoldable pub is_version : NetworkMessage → Option VersionCarrier
is_version (version v) = some v
is_version verack = none
is_version (ping n) = none
is_version (pong n) = none
is_version (headers hs) = none
is_version (inv is) = none
is_version (get_headers hs stop) = none
is_version (other n) = none

unfoldable pub is_verack : NetworkMessage → Bool
is_verack verack = true
is_verack (version v) = false
is_verack (ping n) = false
is_verack (pong n) = false
is_verack (headers hs) = false
is_verack (inv is) = false
is_verack (get_headers hs stop) = false
is_verack (other n) = false
