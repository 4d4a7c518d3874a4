-- ===== src/Server.antt =====
-- src/server.rs: what a server's parts are sized to, its start, and its cache of templates.
pub mod Policy
pub mod Start
pub mod Shutdown
pub mod Halted
pub mod Stopped
pub mod Pools
pub mod Returned
pub mod Room
pub mod Templates
pub mod Flights
