-- ===== src/Lightning.antt =====
-- `LightningConnector` of src/lightning.rs: an adaptor of the crate `lightning` to the node.
-- `ChainWatchInterfaceUtil` of that crate is the interface `Util`; listeners and scripts are numbers
-- that identify them. What is sent to the network layer is a log.
use murmel.Common.{ℕ, List, [], ◌∷◌, ◌++◌, leb, Bool}
use murmel.External.{BlockHeader, Network}
use murmel.Network.{P2PControl}
use murmel.Network

-- `block_connected_with_filtering`, `block_disconnected`, `install_watch_outpoint`, `watch_all_txn`,
-- `register_listener` and `new`.
pub record Util (U Block : Type 0) : Type 0 where
  pub new : Network → U
  pub connected : U → Block → ℕ → U
  pub disconnected : U → BlockHeader → U
  pub watch_outpoint : U → ℕ × ℕ → ℕ → U
  pub watch_all : U → U
  pub register : U → ℕ → U

pub record LightningConnector (U Message : Type 0) : Type 0 where
  pub util : U
  pub p2p : List (P2PControl Message)

-- The answer of a call that may not be there.
pub data Reply (A : Type 0) : Type 0 where
  done : A → Reply A
  not_supported unimplemented : Reply A

-- `Logger::log`: whether a record of a level is shown, by the order of levels.
unfoldable pub logs : ℕ → ℕ → Bool
logs level record_level = leb record_level level

module _ {U Block Message : Type 0} (base : Util U Block) where
  unfoldable pub new : Network → LightningConnector U Message
  new network = record { util = base.new network; p2p = [] }

  unfoldable pub block_connected :
      LightningConnector U Message → Block → ℕ → LightningConnector U Message
  block_connected c block height = record c { util = base.connected c.util block height }

  unfoldable pub header_connected :
      LightningConnector U Message → BlockHeader → ℕ → LightningConnector U Message
  header_connected c header height = c

  unfoldable pub block_disconnected :
      LightningConnector U Message → BlockHeader → LightningConnector U Message
  block_disconnected c header = record c { util = base.disconnected c.util header }

  -- `tx` makes a message of a transaction.
  unfoldable pub broadcast :
      {Tx : Type 0}
      → (Tx → Message)
      → LightningConnector U Message
      → Tx
      → LightningConnector U Message
  broadcast tx c t = record c { p2p = c.p2p ++ (Network.broadcast (tx t) ∷ []) }

  unfoldable pub install_watch_tx :
      LightningConnector U Message → ℕ → ℕ → Reply (LightningConnector U Message)
  install_watch_tx c txid script = unimplemented

  unfoldable pub install_watch_outpoint :
      LightningConnector U Message → ℕ × ℕ → ℕ → LightningConnector U Message
  install_watch_outpoint c outpoint script = record c {
    util = base.watch_outpoint c.util outpoint script;
  }

  unfoldable pub watch_all_txn : LightningConnector U Message → LightningConnector U Message
  watch_all_txn c = record c { util = base.watch_all c.util }

  unfoldable pub register_listener : LightningConnector U Message → ℕ → LightningConnector U Message
  register_listener c listener = record c { util = base.register c.util listener }

  unfoldable pub get_chain_utxo : LightningConnector U Message → ℕ → ℕ → Reply (ℕ × ℕ)
  get_chain_utxo c genesis identifier = not_supported
