-- ===== src/Examples.antt =====
-- The theorems applied to concrete inputs.
pub mod Service
pub mod Joining
pub mod Cluster
pub mod ThreadPool
pub mod RecoveryCsv
pub mod Programs
pub mod Work
pub mod Recovery
pub mod Csv
pub mod Reader
pub mod Database
pub mod System
pub mod Rounds
pub mod Starts
