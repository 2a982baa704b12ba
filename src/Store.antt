-- ===== src/Store.antt =====
-- harness/storage/store.py: the tables, and the methods that read and write them.
pub mod Schema
pub mod Records
pub mod Branches
pub mod Runs
pub mod Events
pub mod Operations
pub mod Grants
pub mod Interactions
pub mod Waits
pub mod Budget
pub mod Projects
pub mod Commands
