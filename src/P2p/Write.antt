-- ===== src/P2p/Write.antt =====
-- A writable peer in `event_processor` of src/p2p.rs: unfinished writes go first, then the messages of
-- the peer's queue.
-- What the stream answers to each write is a list: `none` an error (also: it would block), `some n`
-- that it takes at most `n` bytes. After the last answer every write is an error.
use murmel.Common.{
  ℕ, zero, suc, ◌+◌, min, Bool, true, false, Option, none, some, List, [], ◌∷◌, ◌++◌, length, take,
  drop, nat_eq,
}
use murmel.Common.Map
use murmel.Buffer.{Buffer, advance, commit, read_ahead, io_buffer_size}
use murmel.Outcome.{Outcome, ok, err, panic, unfinished}
use murmel.Network.{PeerId, PeerId-Eq}
use murmel.P2p.{Peer, P2PConfig, System, reregister_read}
use murmel.P2p.Net.{Net, put_peer}

-- A peer, the answers to come, and the bytes that its stream has taken.
pub record Writing (Message : Type 0) : Type 0 where
  pub peer : Peer Message
  pub answers : List (Option ℕ)
  pub sent : List ℕ

-- `advance` and `commit`.
unfoldable pub take_out : Buffer → ℕ → Option Buffer
take_out b n = elim (advance b n) [ none ↦ none | some (_, c) ↦ commit c ]

module _ {Message : Type 0} where
  abbrev pub with_store : Writing Message → Buffer → Writing Message
  with_store w b = record w { peer = record w.peer { write_buffer = b } }

  -- `while let Ok(wlen) = stream.write(&iobuf[wrote..len])`, on those bytes. The result is `get_next`.
  unfoldable pub write_out :
      List (Option ℕ) → List ℕ → Writing Message → Writing Message × Outcome Bool
  write_out [] bytes w = (record w { answers = [] }, ok true)
  write_out (none ∷ answers) bytes w = (record w { answers = answers }, ok true)
  write_out (some taken ∷ answers) bytes w =
      let wlen = min taken (length bytes) in
      elim (nat_eq wlen 0) [
        | true ↦ (record w { answers = answers }, ok false)
        | false ↦ elim (take_out w.peer.write_buffer wlen) [
          | none ↦ (w, panic)
          | some b ↦
              let wrote = record (with_store w b) {
                answers = answers;
                sent = w.sent ++ take wlen bytes;
              } in
              elim (nat_eq wlen (length bytes)) [
                | true ↦ (wrote, ok true)
                | false ↦ write_out answers (drop wlen bytes) wrote
              ]
        ]
      ]

  -- The unfinished write, if there is one.
  unfoldable pub finish_write : Writing Message → Writing Message × Outcome Bool
  finish_write w = elim (read_ahead w.peer.write_buffer io_buffer_size) [
    | none ↦ (w, panic)
    | some [] ↦ (w, ok true)
    | some (x ∷ bytes) ↦ write_out w.answers (x ∷ bytes) w
  ]

module _ {Message Envelope : Type 0} (cfg : P2PConfig Message Envelope) (sys : System)
    (pid : PeerId) where
  -- The next message goes into the write buffer; `true` as long as there is one.
  unfoldable pub refill : Writing Message → Writing Message × Outcome Bool
  refill w = elim w.peer.queue [
    | [] ↦
        let (p, o) = reregister_read sys pid w.peer in
        (
          record w { peer = p },
          elim o [ ok _ ↦ ok false | err e ↦ err e | panic ↦ panic | unfinished ↦ unfinished ],
        )
    | m ∷ ms ↦
        let (b, o) = cfg.encode (cfg.wrap m) w.peer.write_buffer in
        (
          record w { peer = record w.peer { queue = ms; write_buffer = b } },
          elim o [ ok _ ↦ ok true | err e ↦ err e | panic ↦ panic | unfinished ↦ unfinished ],
        )
  ]

  -- A turn of the loop; `false` is its `break`.
  unfoldable pub write_turn : Writing Message → Writing Message × Outcome Bool
  write_turn w =
      let (v, get_next) = finish_write w in
      elim get_next [
        | ok true ↦ refill v
        | ok false ↦ (v, ok true)
        | err e ↦ (v, err e)
        | panic ↦ (v, panic)
        | unfinished ↦ (v, unfinished)
      ]

  unfoldable pub write_loop : ℕ → Writing Message → Writing Message × Outcome (Unit {0})
  write_loop zero w = (w, unfinished)
  write_loop (suc fuel) w =
      let (v, goes_on) = write_turn w in
      elim goes_on [
        | ok true ↦ write_loop fuel v
        | ok false ↦ (v, ok tt)
        | err e ↦ (v, err e)
        | panic ↦ (v, panic)
        | unfinished ↦ (v, unfinished)
      ]

  -- Each turn uses up an answer or a message, or is the last.
  abbrev pub write_rounds : Writing Message → ℕ
  write_rounds w = suc (length w.answers + length w.peer.queue)

  abbrev pub starts : Peer Message → List (Option ℕ) → Writing Message
  starts p answers = record { peer = p; answers = answers; sent = [] }

  -- The event of a writable peer.
  unfoldable pub writable : Net Message → List (Option ℕ) → Net Message × Outcome (Unit {0})
  writable net answers = elim (Map.get net.peers pid) [
    | none ↦ (net, ok tt)
    | some p ↦
        let w = starts p answers in
        let (v, o) = write_loop (write_rounds w) w in (put_peer net pid v.peer, o)
  ]
