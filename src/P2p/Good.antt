-- ===== src/P2p/Good.antt =====
-- The peers of src/p2p.rs that the operations on peers keep.
use murmel.Common.{ℕ, ◌<◌, Bool, Option, List, arith}
use murmel.Buffer.Refine.{IsValid}
use murmel.Buffer.Run.{new-IsValid}
use murmel.Network.{PeerId, PeerId-Eq}
use murmel.P2p.{Peer, P2PConfig, System, ban_limit}
use murmel.P2p.Handshake.{IsShaken}
use murmel.P2p.Peers.{read_bytes-Keeps}
use murmel.P2p.Stable.{Queues, Stable, read_bytes-Stable}
use murmel.P2p.Stored.{write_loop-Stored}
use murmel.P2p.Write.{starts, write_rounds}
use murmel.P2p.Flow.{Appends, write_loop-Written}
use murmel.P2p.Every.{Closed}
use murmel.P2p.Connect.{new_peer}

module _ {Message Envelope : Type 0} (cfg : P2PConfig Message Envelope) (sys : System)
    (needed : ℕ) where
  -- A peer that is connected only after a complete handshake, whose score is below the limit, and whose
  -- write buffer is valid; its id is as `R` says.
  pub record Good (R : PeerId → Type 0) (q : PeerId) (p : Peer Message) : Type 0 where
    pub shaken : IsShaken cfg needed p
    pub below : p.ban < ban_limit
    pub valid : IsValid p.write_buffer
    pub allowed : R q

  abbrev Sound : Peer Message → Type 0
  Sound p = (p.ban < ban_limit) × IsValid p.write_buffer

  Sound-Stable : Stable Sound
  Sound-Stable = record {
    queues = record { queued = λ p ms h. h; registered = λ p b h. h };
    filled = λ p b h. h;
    versioned = λ p v h. h;
    acked = λ p b h. h;
    joined = λ p b h. h;
  }

  pub Good-Queues : (R : PeerId → Type 0) (q : PeerId) → Queues (Good R q)
  Good-Queues R q = record {
    queued = λ p ms h. record {
      shaken = record { fits = h.shaken.fits; complete = h.shaken.complete };
      below = h.below;
      valid = h.valid;
      allowed = h.allowed;
    };
    registered = λ p b h. record {
      shaken = record { fits = h.shaken.fits; complete = h.shaken.complete };
      below = h.below;
      valid = h.valid;
      allowed = h.allowed;
    };
  }

  -- All operations keep a good peer good.
  pub Good-Closed :
      (R : PeerId → Type 0) (serialize : Envelope → List ℕ)
      → ((q : PeerId) → Appends cfg sys q serialize)
      → Closed cfg sys needed (Good R)
  Good-Closed R serialize a = record {
    queues = Good-Queues R;
    scored = λ q p k l h. record {
      shaken = record { fits = h.shaken.fits; complete = h.shaken.complete };
      below = l;
      valid = h.valid;
      allowed = h.allowed;
    };
    reads = λ q height rounds p bytes h.
        let k = read_bytes-Keeps cfg sys q needed height rounds p bytes h.shaken in
        let (b, v) =
          read_bytes-Stable cfg sys q Sound Sound-Stable needed height rounds p bytes
            (h.below, h.valid) in
        record { shaken = k.shaken; below = b; valid = v; allowed = h.allowed };
    writes = λ q p answers h.
        let w = starts cfg sys q p answers in
        let t =
          write_loop-Written cfg sys q serialize (a q) (write_rounds cfg sys q w) w h.valid
            (omega arith) in
        let (s, b) =
          write_loop-Stored (λ p. IsShaken cfg needed p × (p.ban < ban_limit))
            (λ p b (s, l). (record { fits = s.fits; complete = s.complete }, l)) cfg sys q
            (record {
              queued = λ p ms (s, l). (record { fits = s.fits; complete = s.complete }, l);
              registered = λ p b (s, l). (record { fits = s.fits; complete = s.complete }, l);
            })
            (write_rounds cfg sys q w) w (h.shaken, h.below) in
        record { shaken = s; below = b; valid = t.valid; allowed = h.allowed };
  }

  pub new_peer-Good :
      (R : PeerId → Type 0) (q : PeerId)
      → R q
      → (a : Option ℕ) (out : Bool) → Good R q (new_peer a out)
  unfolding new_peer
  new_peer-Good R q l a out = record {
    shaken = record { fits = λ v e. absurd (cc); complete = λ e. absurd (cc) };
    below = omega arith;
    valid = new-IsValid.0;
    allowed = l;
  }
