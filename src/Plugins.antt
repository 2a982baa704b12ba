-- ===== src/Plugins.antt =====
-- harness/plugins: what plugins add to the program, and the order in which they are loaded.
pub mod Manifest
pub mod Extensions
pub mod Dependencies
