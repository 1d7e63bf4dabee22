-- ===== src/Thread.antt =====
-- src/thread.c: threads, the run queue, and the scheduler.
pub mod State
pub mod Runq
pub mod Sched
pub mod Queue
pub mod Next
pub mod Park
pub mod Pick
pub mod Schedule
pub mod Frame
pub mod System
pub mod Calls
pub mod Enable
pub mod Add
pub mod Quiet
pub mod Wakeup
pub mod Held
pub mod Leave
pub mod Tell
pub mod Exit
pub mod Join
pub mod Destroy
pub mod Resume
pub mod Trace
pub mod Create
pub mod Forge
pub mod Insert
pub mod Created
mod Births
mod Examples
pub mod Runs
mod Tests
