-- ===== src/P2p/Event.antt =====
-- The events of the poll in src/p2p.rs: `event_processor`, and what `poll_events` does with an error.
use murmel.Common.{ℕ, Bool, false, Option, List, ◌||◌, if◌then◌else◌}
use murmel.Outcome.{Outcome, ok, err, panic, unfinished}
use murmel.Network.{PeerId}
use murmel.P2p.{P2PConfig, System}
use murmel.P2p.Net.{Net, disconnect, ban, readable}
use murmel.P2p.Write.{writable}

-- `UnixReady` of an event.
pub record Readiness : Type 0 where
  pub hup : Bool
  pub error : Bool
  pub writable : Bool
  pub readable : Bool

-- What the stream of the peer answers in an event: to each write, and to the read.
pub record Answers : Type 0 where
  pub writes : List (Option ℕ)
  pub read : Option (List ℕ)

module _ {Message Envelope : Type 0} (cfg : P2PConfig Message Envelope) (sys : System)
    (pid : PeerId) (needed_services rounds : ℕ) where
  unfoldable pub write_part : Net Message → Readiness → Answers → Net Message × Outcome (Unit {0})
  write_part net ready answers =
      if ready.writable then writable cfg sys pid net answers.writes else (net, ok tt)

  unfoldable pub read_part : Net Message → Readiness → Answers → Net Message × Outcome (Unit {0})
  read_part net ready answers =
      if ready.readable
      then readable cfg sys pid net needed_services rounds answers.read
      else (net, ok tt)

  -- `rounds` bounds the turns of the loop over decoded messages.
  unfoldable pub event_processor :
      Net Message → Readiness → Answers → Net Message × Outcome (Unit {0})
  event_processor net ready answers =
      if ready.hup || ready.error
      then (disconnect net pid false, ok tt)
      else let (wrote, o) = write_part net ready answers in
        elim o [
          | ok _ ↦ read_part wrote ready answers
          | err e ↦ (wrote, err e)
          | panic ↦ (wrote, panic)
          | unfinished ↦ (wrote, unfinished)
        ]

  -- An error counts 10 points; a panic ends the thread.
  unfoldable pub on_event : Net Message → Readiness → Answers → Outcome (Net Message)
  on_event net ready answers =
      let (after, o) = event_processor net ready answers in
      elim o [
        | ok _ ↦ ok after
        | err _ ↦ ok (ban after pid 10)
        | panic ↦ panic
        | unfinished ↦ unfinished
      ]
