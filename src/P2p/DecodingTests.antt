-- ===== src/P2p/DecodingTests.antt =====
-- A decoder that takes each byte for a verack.
use murmel.Common.{
  ℕ, ◌≡◌, ◌≢◌, ap, none, some, List, [], ◌∷◌, length, length-drop, inr, inl, arith, List-cases,
  true, false,
}
use murmel.Buffer.{Buffer, read_advance}
use murmel.Buffer.Tape.{bytes, reads, step, run}
use murmel.Buffer.Refine.{view}
use murmel.Buffer.Calls.{read_lem}
use murmel.Outcome.{unfinished}
use murmel.Messages.{NetworkMessage}
use murmel.Messages
use murmel.P2p.{Reading, read_messages}
use murmel.P2p.Bitcoin.{
  RawNetworkMessage, Decoded, done, unexpected_eof, BitcoinP2PConfig, bitcoin_config,
}
use murmel.P2p.Decoding.{OnlyReads, read_messages-finishes}
use murmel.P2p.Tests.{quiet_system, pid, three_bytes, three_bytes-IsValid}

abbrev verack : RawNetworkMessage
verack = record { magic = 1; payload = Messages.verack }

-- What the decoder makes of the bytes it has read.
abbrev understood : List ℕ → Decoded
understood [] = unexpected_eof
understood (x ∷ xs) = done verack

byte_decoder : Buffer → Buffer × Decoded
byte_decoder b = elim (read_advance b 1) [
  | none ↦ (b, unexpected_eof)
  | some (xs, c) ↦ (c, understood xs)
]

run_once :
    (b : Buffer) (r : List ℕ × Buffer)
    → read_advance b 1 ≡ some r
    → run b (reads 1 ∷ []) ≡ some (bytes r.0 ∷ [], r.1)
unfolding run step
run_once b r e = ground (arith, e)

byte_decoder-OnlyReads : OnlyReads byte_decoder
unfolding byte_decoder
byte_decoder-OnlyReads = record {
  calls = λ b v.
      let (r, e, _, _) = read_lem b v 1 in
      (1 ∷ [], bytes r.0 ∷ [], rw (e, byte_decoder) (run_once b r e));
  has_read = λ b m v d.
      let (r, e, q, k) = read_lem b v 1 in
      let d' : understood r.0 ≡ done m = rw (e, byte_decoder) at d in
      elim (List-cases (view b).rest) [
        | inl f ↦ absurd (let z = rw (q, f) at d' in cc)
        | inr (x, xs, f) ↦
            rw (e, byte_decoder)
              (omega (
                arith,
                ap (λ ys. length ys) k.shows,
                length-drop 1 (view b).rest,
                ap (λ ys. length ys) f,
              ))
      ];
}

abbrev config : BitcoinP2PConfig
config = record {
  magic = 1;
  nonce = 7;
  user_agent = "";
  max_protocol_version = 70001;
  server = false;
}

abbrev receiving : Reading NetworkMessage RawNetworkMessage
receiving = record {
  peer = record {
    read_buffer = three_bytes;
    write_buffer = three_bytes;
    got_verack = false;
    version = none;
    queue = [];
    writeable = false;
    connected = false;
    ban = 0;
    outgoing = true;
    address = some 4;
  };
  incoming = [];
  disconnect = false;
  ban = false;
  handshake = false;
  address = none;
}

read_messages-finishes_example :
    (read_messages
      (bitcoin_config config 5 (λ e. []) byte_decoder)
      quiet_system
      pid
      1
      6
      4
      receiving).1
    ≢ unfinished
read_messages-finishes_example =
    read_messages-finishes config 5 (λ e. []) byte_decoder quiet_system pid 1 6 4 receiving
      byte_decoder-OnlyReads three_bytes-IsValid (omega arith)
