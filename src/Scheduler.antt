-- ===== src/Scheduler.antt =====
-- kernel/src/process: the scheduler and its processes.
pub mod Context
pub mod Process
pub mod State
pub mod Wake
pub mod Calls
pub mod Processor
pub mod Census
pub mod Wakes
pub mod Visits
pub mod Entries
pub mod Invariant
pub mod Leaving
pub mod Passes
pub mod Steps
pub mod Switch
pub mod Ends
pub mod Turns
pub mod Tops
pub mod Waiters
pub mod Parents
pub mod Remains
mod Examples
pub mod Scripts
pub mod Files
pub mod Tables
pub mod Descriptors
pub mod UserHeap
pub mod Syscalls
mod TableExamples
