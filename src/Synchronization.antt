-- ===== src/Synchronization.antt =====
-- networking_nsxv3/common/synchronization.py: the job runner and the rate limiter.
pub mod Scheduler
pub mod Queue
pub mod Runner
pub mod ListQueue
