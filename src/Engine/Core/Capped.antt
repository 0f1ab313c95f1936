-- ===== src/Engine/Core/Capped.antt =====
-- Every number that the core holds is finite and in its range, whatever was sent
-- (crates/iem-engine/src/core.rs: "Every field is capped here, whoever sent it").
mod Setters
mod Commands
mod Requests
pub use Setters.*
pub use Commands.*
pub use Requests.*
