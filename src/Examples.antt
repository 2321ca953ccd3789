-- ===== src/Examples.antt =====
-- Concrete inputs of the theorems.
mod Cluster
mod Elections
mod Trees
mod Services
mod Locks
mod Votes
mod Holders
mod Wire
mod Clients
