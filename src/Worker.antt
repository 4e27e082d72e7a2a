-- ===== src/Worker.antt =====
-- internal/worker: what a worker does with a claimed job.
pub mod Backoff
pub mod Fetch
pub mod Pool
pub mod Process
pub mod Attempt
pub mod Scheduler
pub mod Sweep
