-- ===== src/Lib.antt =====
-- Hyperledger Fabric (openblockchain's obc-peer): the PBFT consensus core of
-- openchain/consensus/obcpbft, the world state of openchain/ledger/statemgmt, and the ledger of
-- openchain/ledger; and the consensus plugin of openchain/consensus/noops.
--
-- A validating peer runs a replica, `pbftCore` of pbft-core.go. Client requests and protocol messages
-- reach it through `request` and `receive`, which hand each message, under a lock, to `recvMsgSync`.
-- The primary of a view assigns sequence numbers by pre-prepares; the backups answer with prepares and
-- commits, collected in a certificate for each view and number. A request with a commit certificate
-- and the next number is given to the application. Every `K` requests a checkpoint message is
-- broadcast; a quorum of equal ones moves the low watermark and drops what lies below it. A timer that
-- expires, or f+1 others who ask for it, start a view change: each replica sends the P and Q sets of
-- what it has prepared and pre-prepared, and the primary of the new view computes from a quorum of
-- them what the view starts with.
--
-- The transactions that consensus orders change the world state through `State` of
-- openchain/ledger/statemgmt/state/state.go. It keeps a `StateDelta` for the block and one for the
-- transaction in progress, which is merged into the former when the transaction succeeds; what is
-- committed is read through the interface `HashableState`.
--
-- The ledger brackets a batch of transactions: `BeginTxBatch`, the transactions on the `State`, and then
-- `CommitTxBatch`, which asks the state for its hash, links a new block to the last, and writes the
-- block, its indexes, the implementation's changes and the batch's delta in one batch of the database;
-- or `RollbackTxBatch`. A state transfer writes blocks by `PutRawBlock` and moves the world state by
-- `ApplyStateDelta` and `CommitStateDelta`.
--
-- The files, and what they model:
--   Base: tests on numbers, lists, equality of keys, and Go's maps as association lists. A `range`
--     loop over a map visits the entries in the list's order; the language leaves the order open, and
--     theorems that range over all states range over all orders.
--   Pbft/Messages: the messages of messages.pb.go.
--   Pbft/Replica: the fields of `pbftCore`, the effects of a replica on the world as a list, and the
--     record `Env` of what it calls outside: hashing, marshalling, signatures, the consumer's
--     `validate`, the ledger's last block, random draws. All theorems hold for every such `Env`.
--   Pbft/Quorum, Pbft/Timer: the predicates and the timer of pbft-core.go. A 64-bit number is a natural
--     number, and sums and differences wrap as in Go; durations do not.
--   Pbft/Ordering: `recvRequest`, `recvPrePrepare`, `recvPrepare`, `maybeSendCommit`, `recvCommit`,
--     `innerBroadcast`, `resubmitRequests`. A message that the replica sends to itself is handled at
--     once, as in the code.
--   Pbft/Checkpoints: `moveWatermarks`, `witnessCheckpoint`, `witnessCheckpointWeakCert`.
--   Pbft/Execution: `executeOne`, in the two parts between which the code gives up its lock, and
--     `executeOutstanding`, whose loop takes fuel and answers `none` when it runs out.
--   Pbft/ViewChange, Pbft/Assignment, Pbft/NewView: viewchange.go and the signing of sign.go. The
--     handlers call one another in a circle through `sendViewChange`, which takes fuel.
--   Pbft/Receive: `recvMsgSync`, `recvCheckpoint`, the fetching of requests, the timer thread and the
--     end of a state transfer. Pbft/Start: the constructor.
--   Statemgmt/Delta, Statemgmt/Delta/Hash, Statemgmt/Delta/Marshal: state_delta.go. A nil slice is
--     `none`. The sort, the hash and the protobuf buffer are arguments.
--   Statemgmt/State: state.go; `set` and `delete` share `change`. An implementation of `HashableState` is
--     an argument, and a theorem assumes nothing of it but what it names. The two of the repository,
--     buckettree and trie, are not instances of it here. Statemgmt/State/Persistence: the deltas of
--     earlier blocks in the database.
--   Ledger/Store: the database, openchain/db/db.go: a column family is a map, and a write batch changes
--     the maps in its order, or is refused as a whole.
--   Ledger/Block: blocks and transactions of protos/openchain.pb.go, the hash of protos/block.go, and the
--     record `Env` of what the ledger calls outside: marshalling, varints, the hash, the database's
--     answer to a batch. Ledger/Proto and `IsVarint` of Ledger/Lookup name what is relied on in the
--     protobuf library.
--   Ledger/Blockchain, Ledger/Indexes: blockchain.go and blockchain_indexes.go. Ledger/Batches: ledger.go;
--     the loop of `VerifyChain` is recursion on the number of rounds that are left.
--   Noops/Txq, Noops/Plugin: txq.go and noops.go of openchain/consensus/noops, the plugin that orders
--     transactions by their arrival. What it calls outside are entries of a list, and the answers of the
--     record `Stack` may depend on the calls before. `Run` has the steps of its thread, with a timeout at
--     any time, since the event of a timer that was stopped may still come; `Rounds` has those between
--     arrivals, with timeouts of a running timer only.
--   Buckettree/Config: config.go and bucket_key.go of openchain/ledger/statemgmt/buckettree, the shape of
--     one implementation of `HashableState`. The loop over the levels takes fuel; the number of buckets
--     is enough.
-- The modules below these, and the others of Ledger, Noops and Buckettree, hold the proofs. The modules
-- Tests and Statemgmt/CodecTests have instances; those of the ledger stand on Ledger/Codecs,
-- Ledger/World and Ledger/Samples, which give concrete encodings, implementations and ledgers.
--
-- A panic of the code (a nil pointer, an index out of range, a failed ledger query) sets the field
-- `crashed`, as does fuel that runs out in `sendViewChange`; what a crashed replica computes is not
-- observed. Errors that a handler returns are kept beside the state.
--
-- Not modelled: the goroutines' channels and the lock itself (a handler is atomic, except around the
-- application's execution), log lines but for those that can panic, the state transfer behind the
-- calls that the replica makes, the consumers of the core, the implementations of the world state, its
-- range scans and snapshots, reads of the database that fail, the asynchronous indexer, which is switched
-- off, the events sent for new blocks, chaincode, crypto, peer and the certificate authority.
pub mod Base
pub mod Pbft
pub mod Statemgmt
pub mod Ledger
pub mod Noops
pub mod Buckettree
