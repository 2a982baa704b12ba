-- ===== src/Policy.antt =====
-- harness/policy/engine.py: which capabilities a run has, and what it must ask approval for.
pub mod Documents
pub mod Engine
pub mod ReadOnly
