-- ===== src/Server.antt =====
-- The web server's pure state machines (crates/iem-server).
pub mod LoginGuard
pub mod SoloJanitor
pub mod Mirror
