-- ===== src/Safety.antt =====
-- Properties that cut across the store, the policy engine and the scheduler.
pub mod Documents
pub mod Pairing
pub mod Sessions
pub mod Login
pub mod Replay
pub mod Execution
pub mod Reported
pub mod Guard
pub mod PlanTools
pub mod History
pub mod Permits
pub mod Memories
pub mod Selection
pub mod Quiet
pub mod Lifecycle
pub mod Advances
pub mod Reading
pub mod Transitions
pub mod Orderly
pub mod Barrier
pub mod Bindings
pub mod Outcomes
pub mod Dispatch
pub mod Recovery
pub mod Review
pub mod Admission
pub mod Entry
pub mod Forward
pub mod Counting
pub mod Children
pub mod Descendants
pub mod Received
pub mod Resolution
pub mod LoadOrder
pub mod Extensions
pub mod Commands
pub mod Fencing
pub mod Permissions
pub mod Versions
pub mod Concurrency
pub mod Endpoints
pub mod Network
pub mod Claims
pub mod Takeover
pub mod PlanMode
pub mod Balance
pub mod Revocation
pub mod Approval
pub mod Amounts
pub mod Ledger
