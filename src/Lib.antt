-- ===== src/Lib.antt =====
-- A model of murmel, a Bitcoin header-chain client in Rust (src/*.rs), with the theorems that make its
-- parts correct. The program downloads block headers from peers, checks their proof of work, keeps
-- the tree of headers with the chain of most work, and stores it.
--
-- The parts, the files that model them, and how they interact:
-- - src/p2p.rs, `Buffer`: Buffer.antt. Bytes from and to a peer; `decode` of the network layer reads
--   it. Buffer/Tape.antt is its abstract specification, a list of bytes taken and a list to come.
-- - src/p2p.rs, the network layer: Network.antt (ids and messages that clients share), P2p.antt (a
--   peer and its handshake, the loop of `event_processor` over decoded messages), P2p/Net.antt (the
--   map of peers, `disconnect`, `ban`, `control_loop`, a readable peer), P2p/Write.antt (a writable
--   peer), P2p/Event.antt (`event_processor` and its errors), P2p/Connect.antt (`connect`, and the
--   futures of `connecting` and `add_peer`), P2p/Sender.antt (`P2PControlSender`), P2p/Bitcoin.antt
--   (`BitcoinP2PConfig`), Messages.antt (the Bitcoin messages that the source names). P2p/Node.antt
--   puts them together: a machine whose steps are events, commands, new connections and polls of
--   futures, in any order, with its reachable states.
-- - src/headercache.rs: Pow.antt (targets, work), HeaderCache.antt (state and reads),
--   HeaderCache/Difficulty.antt (`required_work`), HeaderCache/Add.antt (`add_header`,
--   `add_header_to_tree`).
-- - src/chaindb.rs: ChainDb.antt, the header cache with a database behind an interface;
--   ChainDb/Durable.antt, Sound.antt, Reliable.antt, Saving.antt, First.antt and Comeback.antt follow a
--   store from its first start over added headers to a restart.
-- - src/timeout.rs: Timeout.antt. src/ping.rs: Ping.antt. src/headerdownload.rs: HeaderDownload.antt;
--   both share the timeouts and send to the network layer. HeaderDownload/Preserves.antt and
--   Restart.antt follow the store over whole runs of the header download, HeaderDownload/Sync.antt the
--   headers of a peer that tells the truth, Ping/Fair.antt whole runs of the ping loop.
-- - src/dispatcher.rs: Dispatcher.antt. src/dns.rs: Dns.antt. src/constructor.rs: Constructor.antt.
--   src/bin/client.rs: Client.antt. src/lightning.rs: Lightning.antt. The constructor opens the
--   database, adds header download and ping to the dispatcher, which the network layer sends to, and
--   makes connections by steps of P2p/Node.antt.
-- - src/error.rs: Outcome.antt (the errors, and results that may panic), ErrorText.antt.
--
-- A struct is a record, an enum a data type, a `HashMap` an association list (Common/Map.antt), a
-- machine integer a natural number, with its wrap-around written out where the source may wrap. A
-- method with `&mut self` returns the new state beside its result. A panic is `panic`, or `none` in
-- Buffer.antt. Channels and calls of the outside are logs in the state. The time, random numbers and
-- the answers of sockets and of the poll are arguments.
--
-- Code of other crates is an argument with its documented behaviour: External.antt has hashes, the
-- 256-bit integers and floats; ChainDb.antt the database; P2p/Bitcoin.antt decoding. Fixtures.antt
-- instantiates them for tests.
--
-- Fuel: the loops of Buffer.antt and `path_loop` get the number of bytes or headers, which the theorems
-- on them show to be enough. `testnet_scan` gets 2016 turns, since it stops at a height that is a
-- multiple of 2016 and a parent is one lower; HeaderCache/Finish.antt shows that `add_header` ends.
-- `read_chain`, `headers_loop` and `read_messages` take it as an argument; ChainDb/Restart.antt and
-- Comeback.antt, HeaderDownload/Headers.antt and P2p/Decoding.antt say how much is enough.
--
-- A write event is allowed a turn for each answer of the stream and each queued message, and one more.
--
-- Not modelled: threads and locks (each step is atomic), sockets, timers and the poll (their answers are
-- arguments), back pressure of full channels, executors, the logger, and the overflow of the counters
-- of src/timeout.rs, which count the replies that are owed. What a database loses if the process stops
-- before a `batch` is a function of it, `saved`, in ChainDb/Saving.antt and HeaderDownload/Restart.antt.
-- Module declarations (src/lib.rs) have nothing to model.
pub mod Common
pub mod Buffer
pub mod Outcome
pub mod ErrorText
pub mod External
pub mod Pow
pub mod HeaderCache
pub mod Network
pub mod Messages
pub mod P2p
pub mod Timeout
pub mod ChainDb
pub mod HeaderDownload
pub mod Ping
pub mod Dispatcher
pub mod Dns
pub mod Constructor
pub mod Client
pub mod Lightning
pub mod Fixtures
