-- ===== src/Cleanup.antt =====
-- src/cleanup.rs: the server's queue of disposable database cleanup.
-- A call that holds a mutex to its end is one function on the state; a wait on a condition variable
-- is the attempt `waits`, tried again later. Threads interleave as sequences of such calls (Cleanup/Steps).
-- `running` holds the jobs that workers have popped and not completed.
pub mod Completion
pub mod Submission
pub mod Worker
pub mod Drain
pub mod Steps
pub mod Accounts
pub mod Refinement
pub mod Invariant
pub mod Barrier
pub mod Delivery
pub mod Permits
