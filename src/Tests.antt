-- ===== src/Tests.antt =====
-- The theorems at concrete inputs, and the server in memory that some of them run on.
pub mod Memory
pub mod Names
pub mod Queues
pub mod Pools
pub mod Servers
pub mod Templates
pub mod Preparations
pub mod Leases
pub mod Harness
pub mod Containers
