-- ===== src/Scheduler.antt =====
-- harness/scheduler/service.py: the life of a run, from its submission to a terminal status.
pub mod Transition
pub mod Submit
pub mod Claim
pub mod Waiting
pub mod Cancel
pub mod Delegate
pub mod Settle
pub mod Recover
pub mod Steering
