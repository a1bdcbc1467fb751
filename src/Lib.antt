-- ===== src/Lib.antt =====
-- Verification of the Aleph Zero node: the consensus components of `finality-aleph`, which decide
-- which blocks are final, and the pallet that keeps the authorities.
--
-- The parts and how they interact. Each session, the party fetches the authorities and, if the node
-- is one of them, runs the consensus of a crate over the session's network. The data store holds a
-- consensus message back until the client has the blocks that it speaks of. The ordered blocks go to
-- the aggregator's task, which extends the finalized chain and has each new block signed by a
-- reliable multicast, another crate; the multisigned blocks go to the justification handler, which
-- verifies and finalizes them. The block import feeds the handler from other nodes.
--
-- Which file models what:
--   Common         Boolean tests, lists, sets, hash maps as association lists, counting.
--   Client         what is asked of the blockchain client; its answers are arguments.
--   Session, Keys  finality-aleph/src/lib.rs: session arithmetic on u32, KeyBox, and AuthorityKeystore in
--     Keys/Authority.
--   Hash           finality-aleph/src/hash.rs.
--   Finalization   finality-aleph/src/finalization.rs.
--   DataIo         DataStore of finality-aleph/src/data_io.rs, function by function, and DataIO in
--     DataIo/Provider.
--   Aggregator     finality-aleph/src/aggregator.rs; Event is what its select! takes.
--   Party          finality-aleph/src/party.rs: run_aggregator, run_session, run and their helpers;
--     Party/Launch is run_consensus_party, Party/Authority and Party/Shutdown are
--     run_session_as_authority and the end of a session, Party/Delays is create_aleph_config.
--   Justification  finality-aleph/src/justification.rs: JustificationHandler.
--   Network        finality-aleph/src/network.rs: ConsensusNetwork, its Peers in Network/Peers, the
--     codec of peer ids in Network/PeerId, split_network in Network/Split.
--   Import         finality-aleph/src/import.rs; Metrics finality-aleph/src/metrics.rs.
--   Pallet         pallet/src/lib.rs.
--   Genesis        bin/node/src/chain_spec.rs; Bootstrap is bin/node/src/commands.rs.
--   Runtime        bin/runtime/src/lib.rs, as far as it reads the pallet, with what
--     bin/node/src/service.rs reads of it.
--   Intake         how a consensus message comes from the network to the session's member.
--   Finality       how what the aggregator's task and the block import send becomes final through the
--     handler.
--   Service        bin/node/src/service.rs: new_partial in Service/Partial, new_full in Service/Full with
--     bin/node/src/rpc.rs, the command line of bin/node/src/command.rs in Service/Command, and
--     run_aleph_consensus of finality-aleph/src/lib.rs in Service/Consensus.
--   Tests          concrete inputs at which the theorems apply.
-- Below each of them stand the modules of its proofs, named for what they prove.
--
-- State is a record that the functions take and return; a task is a run over a list of the events
-- that its select! may take, in any order. `none` is a panic, such as a failed `expect`; channels are
-- lists. Hashes, ids, instants and block numbers are native numbers, with the wrap-around of u32, u64
-- and usize written out. The crates that are called (lru, aleph_bft, the signatures, the codec,
-- Substrate's client, network and runtime) are parameters.
--
-- The loop of chain_extension_step takes fuel, the number of the new block plus one: a chain of
-- headers whose numbers count down is no longer.
--
-- The end of a session is a step relation: the tasks and the future that stops them take steps in any
-- order. The floating-point numbers of the delays, the keystores, and what the session pallet does
-- with the runtime's answers are interfaces, whose laws are the hypotheses of the theorems on them.
--
-- The service acts on a node, to which it spawns tasks and whose network it starts; what it has done
-- stays done after an error. Substrate's calls are parameters which may fail; those that are given a
-- handle or the task manager may spawn tasks of their own in any case.
--
-- Not modelled: the wiring of the runtime's other pallets, the parsing of the command line, logging, the
-- execution of spawned tasks and what follows a panic of one.
pub mod Common
pub mod Client
pub mod DataIo
pub mod Finality
pub mod Finalization
pub mod Genesis
pub mod Hash
pub mod Runtime
pub mod Service
pub mod Session
pub mod Keys
pub mod Justification
pub mod Network
pub mod Pallet
pub mod Import
pub mod Intake
pub mod Metrics
pub mod Party
pub mod Aggregator
pub mod Bootstrap
pub mod Tests
