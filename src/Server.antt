-- ===== src/Server.antt =====
-- harness/server: the pairing of browsers with the local server, and the commands that they send.
pub mod Auth
pub mod Commands
