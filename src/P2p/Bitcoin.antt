-- ===== src/P2p/Bitcoin.antt =====
-- `BitcoinP2PConfig` of src/p2p.rs: the configuration of the network layer for Bitcoin's messages.
-- What `bitcoin` decodes and serializes, and the clock, are arguments.
use Prim.Native.String.{String}
use murmel.Common.{ℕ, ◌+◌, min, Bool, true, Option, none, some, List, if◌then◌else◌}
use murmel.Buffer.{Buffer, commit, rollback, write}
use murmel.Outcome.{Foreign, Outcome, ok, err, panic, io}
use murmel.Network.{service_blocks, service_witness, service_filters}
use murmel.Messages.{NetworkMessage}
use murmel.Messages
use murmel.P2p.{P2PConfig}

-- `RawNetworkMessage`.
pub record RawNetworkMessage : Type 0 where
  pub magic : ℕ
  pub payload : NetworkMessage

-- What decoding may give: a message, the end of the bytes, another IO error, another error.
pub data Decoded : Type 0 where
  done : RawNetworkMessage → Decoded
  unexpected_eof : Decoded
  io_error other_error : Foreign → Decoded

pub record BitcoinP2PConfig : Type 0 where
  pub magic : ℕ
  pub nonce : ℕ
  pub user_agent : String
  pub max_protocol_version : ℕ
  pub server : Bool

unfoldable pub services : BitcoinP2PConfig → ℕ
services c = if c.server then service_blocks + service_witness + service_filters else 0

-- The version message, with the time and the height of the chain.
unfoldable pub version_message : BitcoinP2PConfig → ℕ → ℕ → ℕ → ℕ → NetworkMessage
unfolding services
version_message c now height remote max_protocol_version = Messages.version (record {
  version = min max_protocol_version c.max_protocol_version;
  services = services c;
  timestamp = now;
  receiver = remote;
  sender = remote;
  nonce = c.nonce;
  user_agent = c.user_agent;
  start_height = height;
  relay = true;
})

-- Free the bytes that were read, then give the result.
unfoldable pub committed :
    Buffer → Outcome (Option RawNetworkMessage) → Buffer × Outcome (Option RawNetworkMessage)
committed b o = elim (commit b) [ none ↦ (b, panic) | some c ↦ (c, o) ]

-- `decode`, on what the decoder has made of the buffer.
unfoldable pub decode :
    (Buffer → Buffer × Decoded) → Buffer → Buffer × Outcome (Option RawNetworkMessage)
decode consensus_decode src =
    let (b, d) = consensus_decode src in
    elim d [
      | done m ↦ committed b (ok (some m))
      | unexpected_eof ↦ (rollback b, ok none)
      | io_error e ↦ committed b (err (io e))
      | other_error e ↦ committed b (err (io e))
    ]

-- `encode`: the serialized bytes are appended. `write` of a buffer takes all of them.
unfoldable pub encode :
    (RawNetworkMessage → List ℕ) → RawNetworkMessage → Buffer → Buffer × Outcome (Unit {0})
encode serialize m dst = ((write dst (serialize m)).1, ok tt)

unfoldable pub bitcoin_config :
    BitcoinP2PConfig
    → ℕ
    → (RawNetworkMessage → List ℕ)
    → (Buffer → Buffer × Decoded)
    → P2PConfig NetworkMessage RawNetworkMessage
bitcoin_config c now serialize consensus_decode = record {
  version = version_message c now;
  nonce = c.nonce;
  max_protocol_version = c.max_protocol_version;
  min_protocol_version = 70001;
  verack = Messages.verack;
  wrap = λ m. record { magic = c.magic; payload = m };
  unwrap = λ e. some e.payload;
  encode = encode serialize;
  decode = decode consensus_decode;
  is_version = Messages.is_version;
  is_verack = Messages.is_verack;
}
