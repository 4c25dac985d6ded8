-- ===== src/Cluster.antt =====
-- _zk_server/clust_comm.cpp, one child for each group of functions.
pub mod Paths
pub mod Localhost
pub mod Files
pub mod Dispatch
pub mod Worker
pub mod Elect
pub mod Register
pub mod Recover
pub mod Watcher
pub mod Session
pub mod Interface
pub mod Kept
pub mod Programs
