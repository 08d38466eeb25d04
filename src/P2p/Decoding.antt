-- ===== src/P2p/Decoding.antt =====
-- The loop of `event_processor` in src/p2p.rs over Bitcoin's messages ends.
use murmel.Common.{ℕ, ◌<◌, ◌≡◌, ◌≢◌, refl, ap, some, List, length, inl, inr, ◌⊎◌, arith}
use murmel.Buffer.{Buffer}
use murmel.Buffer.Tape.{Reply, run}
use murmel.Buffer.Refine.{IsValid, view}
use murmel.Buffer.Calls.{commit_lem}
use murmel.Buffer.Run.{run_refines}
use murmel.Outcome.{Foreign, ok, unfinished}
use murmel.Network.{PeerId}
use murmel.Messages.{NetworkMessage}
use murmel.P2p.{System, Reading, read_messages}
use murmel.P2p.Bitcoin.{
  RawNetworkMessage, Decoded, done, unexpected_eof, io_error, other_error, BitcoinP2PConfig,
  committed, decode, bitcoin_config,
}
use murmel.P2p.Decode.{reading, reading-AreLegal}
use murmel.P2p.Progress.{loop-finishes}

-- What the decoder of the crate does: it only reads, and it has read something when it gives a message.
pub record OnlyReads (consensus_decode : Buffer → Buffer × Decoded) : Type 0 where
  pub calls :
      (b : Buffer)
      → IsValid b
      → (ns : List ℕ) × (replies : List Reply) × (run b (reading ns)
          ≡ some (replies, (consensus_decode b).0))
  pub has_read :
      (b : Buffer) (m : RawNetworkMessage)
      → IsValid b
      → (consensus_decode b).1 ≡ done m
      → length (view (consensus_decode b).0).rest < length (view b).rest

Decoded-cases :
    (d : Decoded)
    → ((m : RawNetworkMessage) × (d ≡ done m))
      ⊎ ((d ≡ unexpected_eof)
          ⊎ (((e : Foreign) × (d ≡ io_error e)) ⊎ ((e : Foreign) × (d ≡ other_error e))))
Decoded-cases (done m) = inl (m, refl)
Decoded-cases unexpected_eof = inr (inl refl)
Decoded-cases (io_error e) = inr (inr (inl (e, refl)))
Decoded-cases (other_error e) = inr (inr (inr (e, refl)))

module _ (consensus_decode : Buffer → Buffer × Decoded) (o : OnlyReads consensus_decode)
    (b : Buffer) (v : IsValid b) where
  decoded-IsValid : IsValid (consensus_decode b).0
  decoded-IsValid =
      let (ns, replies, e) = o.calls b v in
      let w = run_refines b (reading ns) v (reading-AreLegal (view b) ns) in
      let same : w.last ≡ (consensus_decode b).0 = cc in rw (← same) w.valid

  -- What is left of the bytes after a message.
  decode-shrinks :
      (m : RawNetworkMessage)
      → (decode consensus_decode b).1 ≡ ok (some m)
      → (length (view (decode consensus_decode b).0).rest < length (view b).rest)
        × IsValid (decode consensus_decode b).0
  unfolding decode committed
  decode-shrinks m h =
      let (c, e, k) = commit_lem (consensus_decode b).0 decoded-IsValid in
      elim (Decoded-cases (consensus_decode b).1) [
        | inl (n, d) ↦
            let less = o.has_read b n v d in
            rw (d, decode)
              (rw (e, committed) (omega (arith, ap (λ xs. length xs) k.shows, less), k.valid))
        | inr (inl d) ↦ absurd (let i = rw (d, decode) at h in cc)
        | inr (inr (inl (f, d))) ↦
            absurd (let i = rw (d, decode) at h in let j = rw (e, committed) at i in cc)
        | inr (inr (inr (f, d))) ↦
            absurd (let i = rw (d, decode) at h in let j = rw (e, committed) at i in cc)
      ]

  decode-finishes : (decode consensus_decode b).1 ≢ unfinished
  unfolding decode committed
  decode-finishes h =
      let (c, e, k) = commit_lem (consensus_decode b).0 decoded-IsValid in
      elim (Decoded-cases (consensus_decode b).1) [
        | inl (n, d) ↦ let i = rw (d, decode) at h in let j = rw (e, committed) at i in cc
        | inr (inl d) ↦ let i = rw (d, decode) at h in cc
        | inr (inr (inl (f, d))) ↦
            let i = rw (d, decode) at h in let j = rw (e, committed) at i in cc
        | inr (inr (inr (f, d))) ↦
            let i = rw (d, decode) at h in let j = rw (e, committed) at i in cc
      ]

-- With Bitcoin's configuration the loop over the messages of a read ends, whatever messages and handshakes
-- it meets: one turn more than there are bytes to decode is enough. The buffer is valid, and the decoder
-- of the `bitcoin` crate only reads, and has read something when it gives a message.
pub read_messages-finishes :
    (config : BitcoinP2PConfig) (now : ℕ) (serialize : RawNetworkMessage → List ℕ)
    (consensus_decode : Buffer → Buffer × Decoded) (sys : System) (pid : PeerId)
    (needed height fuel : ℕ) (r : Reading NetworkMessage RawNetworkMessage)
    → OnlyReads consensus_decode
    → IsValid r.peer.read_buffer
    → length (view r.peer.read_buffer).rest < fuel
    → (read_messages
        (bitcoin_config config now serialize consensus_decode)
        sys
        pid
        needed
        height
        fuel
        r).1
      ≢ unfinished
unfolding bitcoin_config
read_messages-finishes config now serialize consensus_decode sys pid needed height fuel r o v l =
    loop-finishes (bitcoin_config config now serialize consensus_decode) sys pid needed height
      (λ b. length (view b).rest) IsValid (λ b e w d. decode-shrinks consensus_decode o b w e d)
      (λ b w. decode-finishes consensus_decode o b w) fuel r v l
