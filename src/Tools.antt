-- ===== src/Tools.antt =====
-- harness/tools: the tools, how they are called, and what becomes of their operations.
pub mod Registry
pub mod Modes
pub mod Reconcile
pub mod Gateway
pub mod Attempt
pub mod Approval
pub mod Execute
