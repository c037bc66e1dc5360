-- ===== src/Lib.antt =====
-- rem-poc couples a simulated network of consensus peers to an Ethereum execution client. A block
-- builder draws values from the transaction pool, the peers agree on one value per height, a consumer
-- relays what peer 0 has finalized, and a task executes each relayed set of transactions and appends
-- the block to an in-memory storage, from which a download client serves the rest of the node.
--
-- The parts, and the files that model them:
--   Reth              the execution client, a parameter: types, hashes, roots, forks and execution
--   Storage           src/chain/storage.rs: `StorageInner` and its lookups and insertion
--                     (Storage/Defs); the header template and `build_and_execute` (Storage/Build);
--                     the well-formed chain (Storage/Chain), the list of blocks that a storage
--                     represents (Storage/Represents) and the proofs about both
--   Client            src/chain/client.rs: `fetch_headers` and `fetch_bodies`, against the list of
--                     blocks that the storage represents in Client/Serves
--   Context           src/chain/context.rs and src/chain/context/: heights, addresses, peers, values,
--                     votes, proposals, keys and the shared context; what the library reads of them
--                     (Context/Accessors) and how they are printed (Context/Display);
--                     Context/Malachite is what these take from the consensus library and from
--                     ed25519, a parameter
--   Application       src/chain/application.rs: the channels and the actions on them
--                     (Application/Channels), the handlers (Application/Handlers) and the inputs,
--                     effects and envelopes (Application/Messages); what is published
--                     (Application/Publish), a rule for what the handlers keep (Application/Rule)
--                     and what a handler comes to (Application/Results, Outcome); what is logged of
--                     a message (Application/Print)
--   Simulator         src/chain/simulator.rs: construction, initialization and steps of the network;
--                     Simulator/Library is the library's `process!` macro, a parameter; the wiring of
--                     the peers (Simulator/Routing, Peers, Wiring), the destinations of envelopes
--                     (Simulator/Range), its steps (Simulator/Runs) and whole runs
--                     (Simulator/Whole); what the peers announce (Simulator/Announce), and the
--                     consumer that goes through it (Simulator/Consumed, Simulator/Feeds), and where
--                     the values come from (Simulator/Values, Simulator/Pool); the rules for
--                     steps and for runs (Simulator/Rule, Simulator/RunRule)
--   Chain             src/chain.rs: the builder's storage, the block builder's values, the consumer,
--                     and what the builder returns and the chain's `poll` (Chain/Builder)
--   Task              src/chain/task.rs: the insert future (Task) and the loop of `poll` (Task/Poll);
--                     the order of the work (Task/Work, Task/Order); a rule for what every poll keeps
--                     (Task/Rule), the storage that a poll leaves (Task/Blocks), which sets its
--                     blocks hold (Task/Ledger) and the whole life of a task, as a relation
--                     (Task/Life); the engine's replies (Task/Engine); and the task when every block
--                     that it builds is answered (Task/Conclusive, Healthy, Complete)
--   Launcher          src/launcher.rs: `launch_node`, with the node builder's calls as parameters
--                     (Launcher/Library), and the jobs that it spawns (Launcher/Order, Launcher/Jobs)
--   Mac               src/mac.rs: the consensus whose checks all pass
--   Main              src/main.rs: the program's entry, with the execution client's calls as parameters
--                     (Main/Library) and its constants (Main/Constants); that it runs in dev mode
--                     (Main/Dev), what it spawns (Main/Starts), its runs (Main/Runs), and what its
--                     jobs do side by side (Main/Whole)
--   Pipeline          the consumer and the task together, down to the blocks of the storage, also
--                     when each execution has led to a removal from the pool (Pipeline/Exact) and when
--                     every block is answered
--                     (Pipeline/Complete), with the client that serves
--                     them (Pipeline/Served), and with the simulator and the block builder before
--                     them (Pipeline/FromPool, Pipeline/Program)
--   System            the jobs of a node side by side, as a step relation: the network with the block
--                     builder, the consumer and the task (System); what a step of the network adds
--                     (System/Network), what every step keeps (System/Invariant), and what holds
--                     however they interleave (System/Safe)
--   Prelude           helpers: numbers, lists, hash maps and the results of calls
--   Tests             concrete parameters and runs
--
-- The correspondence. A call that can fail or panic returns a `Run`: a value, an error or a panic. A
-- handler of the application is an action on the channels, and what it has sent before it fails stays
-- sent. A `u64` or a `u32` is a natural number, `+` on a `u64` that may overflow is taken modulo 2^64;
-- hashes, addresses, blooms and 256-bit numbers are numbers. A `HashMap` is an association list whose
-- order stands for the order of iteration. The lock around `StorageInner` is the caller's.
-- A send on the network never fails, since the simulator owns the receiver; a send of a decision step
-- panics when the consumer is gone, and the consumer's send panics when the task is gone, for which
-- there is a flag each. The task records the messages, removals and executions that it performs
-- outside; what each poll of its future meets, the lock, the environment and the engine's replies, is
-- an argument.
--
-- Bounds and fuel. `Task.Poll.poll` takes fuel, one for each pass of its loop; more fuel than there
-- are sets in the backlog is enough. The other loops are structural: over lists, over the limit of a
-- request, over the size of the network. `Simulator.run` takes one step for each of the arrivals of
-- values, since the code's loop has no end. Statements about heights ask for room for one more block
-- below 2^64, or for one for each set of transactions that waits. Some ask that headers with equal
-- hashes have equal numbers, which a hash without collisions satisfies.
--
-- The block builder runs beside the network. A run takes, for each step of the network, the values that
-- the builder has sent since the step before or sends while it takes place, and these are any. The
-- channel that they come in on has room for one value; the model has on it also those that the builder
-- holds until there is room, which nothing but the builder can tell apart.
--
-- A launch is an action on the list of the jobs that it has spawned; what a call of the node builder
-- takes from the launch context alone is not spelled out.
--
-- Not modelled: the library's metrics (src/chain/common.rs), one call; that lines are logged; delays.
mod Prelude
pub mod Reth
pub mod Simulator
pub mod Storage
pub mod Client
pub mod Context
pub mod Application
pub mod Chain
pub mod Task
pub mod Launcher
pub mod Mac
pub mod Main
pub mod Pipeline
pub mod System
pub mod Tests
