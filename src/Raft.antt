-- ===== src/Raft.antt =====
-- internal/raft: the replicated log, the node's state, the RPC handlers and a cluster of nodes.
pub mod Log
pub mod State
pub mod Node
pub mod Vote
pub mod Entries
pub mod Election
pub mod Heartbeat
pub mod Commit
pub mod Apply
pub mod Cluster
pub mod Loop
