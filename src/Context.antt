-- ===== src/Context.antt =====
-- harness/context: what the program puts before a model.
pub mod Budget
pub mod Memory
