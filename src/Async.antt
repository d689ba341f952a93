-- ===== src/Async.antt =====
-- src/uni20/async: the scheduling of reads and writes of a shared value.
pub mod Task
pub mod Epoch
pub mod Queue
pub mod Storage
pub mod Scheduler
pub mod Ownership
pub mod Sinks
mod Tests
