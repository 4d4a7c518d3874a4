-- ===== src/Prewarm.antt =====
-- src/harness.rs: the bounded queue of prewarmed databases. Each critical section of the state's
-- mutex is one function; the guards that callers hold are counted in Prewarm/World.
pub mod State
pub mod Pool
pub mod World
pub mod Invariant
pub mod Closing
pub mod Handles
