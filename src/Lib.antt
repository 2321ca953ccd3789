-- ===== src/Lib.antt =====
-- SkyLock: the Raft consensus, the hierarchical store and the managers of sessions, locks and watches of
-- a coordination service, as functions on explicit states, with the theorems that make them correct
-- and those that show where they are not.
--
-- The parts and how they interact. Each server runs a raft node (internal/raft) and a store
-- (internal/store) over which the lock manager (internal/lock) builds its queues; the session manager
-- (internal/session) ends sessions and calls back; the store calls back on changes, which the watch
-- manager (internal/watch) turns into events. cmd/skylock/main.go makes and connects them.
--
--   Raft.Log        internal/raft/log.go: the log; Numbering and Replication prove its methods
--   Raft.State      internal/raft/state.go: terms, votes, roles and indexes
--   Raft.Node       internal/raft/node.go and errors.go: NewNode, timers, Propose
--   Raft.Vote       node.go, HandleRequestVote (`handle_request_vote`)
--   Raft.Entries    node.go, HandleAppendEntries (`handle_append_entries`)
--   Raft.Election   node.go, runCandidate (`run_candidate`), one answer at a time
--   Raft.Heartbeat  node.go, sendHeartbeats: the request for a peer and the handling of its answer
--   Raft.Commit     node.go, updateCommitIndex (`update_commit_index`)
--   Raft.Apply      node.go, one round of applyLoop (`apply_round`)
--   Raft.Cluster    node.go, the nodes of a cluster and what can happen to them, as a relation of events (Steps)
--                   over the handlers: the votes given, the answers sent and the elections won. The two calls
--                   with which runCandidate opens an election are two events (Overlap)
--   Raft.Loop       node.go, run and runFollower: a follower's wait on its election timer (`run_follower`)
--   Path            internal/store/store.go: normalizePath, parentPath, baseName, over the packages
--                   path and strings of the standard library, which are modelled as far as they are used
--   Sequence        store.go: formatSequence, itoa, padLeft; internal/lock/manager.go reads them back
--   Store           store.go: the store (Types), Create, Set and Delete (Writes), the reads (Reads),
--                   DeleteEphemerals (Ephemerals); Tree, TreeGrow, TreeCreate, TreeDelete, TreeExpiry, Flat and
--                   Reach prove the invariant, Contents and Updates the view as a flat map, Cas and Expiry the rest
--   Session         internal/session/manager.go: the session manager and, in Session.HeartbeatClient, the client
--                   of its heartbeats
--   Watch           internal/watch/watcher.go: the watch manager and its channels
--   Lock            internal/lock/manager.go: TryLock (`try_lock`) up to its wait; Lock.Waiting has the
--                   wait's events (`wake`, `time_out`), Unlock and the queries; Placing and Queue prove the
--                   one, Wake the other
--   Lock.Exclusion  the lock of one name over any sequence of calls of the lock manager and the store
--   Transport       internal/transport: the messages, the calls of a peer and the service of a node; Codec has
--                   the calls that the default codec of gRPC refuses
--   Config          internal/config/config.go: the defaults and Load
--   Startup         cmd/skylock/main.go: the flags, splitPeers, formatAddr and itoa, and the server that is made
--   Client          pkg/client/client.go: the requests and what is made of their answers
--   Cli             cmd/skylockctl/main.go: the commands, the exit status and what is printed
--   Wiring          cmd/skylock/main.go: the components together and what the callbacks do
--   Api             internal/api/server.go: the handlers of sessions and nodes, of locks (Api.Locks) and of
--                   the cluster (Api.Cluster)
--   Common          shared names, lists, strings, maps and tests; Examples has the concrete inputs
--
-- Conventions. A method that holds its mutex throughout is one function from a state to a state, with
-- its results beside it; an error is a value. A goroutine that a method starts is a value that the
-- method returns (`Calls`, the answers of an election), and the caller says in which order they run. The
-- clock, the random draw, the identifiers of uuid.New and the answers of the transport are arguments.
-- An uint64 wraps around where the source computes with it (`u64`), a slice's length does not. A string
-- is its list of bytes. A map is an association list; where the source ranges over one, in any order, a
-- theorem holds for every list.
--
-- Fuel. The loop of itoa runs on the number itself, which is at least its count of digits; the sort in
-- updateCommitIndex on the length of its slice; a round of applyLoop on the distance of its two indexes;
-- the heartbeats to a peer that lags (Raft.Heartbeat.Retry) on the peer's next index.
-- The theorems on each show that this is enough.
--
-- The handlers hold the node's mutex and the node's own loop does not: a relation of events takes each
-- call of a handler, and each step of the loop that it names, as one event.
--
-- Not modelled: goroutine scheduling, timers and channels beyond the order of events, the loops that
-- wait on them, logging, a panic of rand.Int63n when
-- the election timeouts are not increasing, and what is a library's: gRPC's Dial, Invoke and its server,
-- the HTTP server and client, routing, JSON, flags and configuration files, which are parameters where
-- the code reads their results.
mod Common
pub mod Raft
pub mod Path
pub mod Sequence
pub mod Store
pub mod Session
pub mod Watch
pub mod Lock
pub mod Transport
pub mod Wiring
pub mod Config
pub mod Startup
pub mod Api
pub mod Client
pub mod Cli
mod Examples
