-- ===== src/Engine/Core.antt =====
-- The control core, the single writer of the mix state (crates/iem-engine/src/core.rs and its
-- children). `Core.State` has the state laid out along the topology, `Core.Defs` the core and its
-- readers, `Core.Setters` the writes of one entity, `Core.Commands` one command and `Core.Apply`
-- the requests. The other children prove.
mod State
mod Defs
mod Setters
mod Commands
mod Apply
pub mod Steps
pub mod Taps
pub mod Solo
pub mod Hil
pub mod Faults
pub mod Cases
pub mod Rules
pub mod Atomic
pub mod Capped
pub mod Revision
pub mod Roles
unfoldable pub use State.*
unfoldable pub use Defs.*
unfoldable pub use Setters.*
unfoldable pub use Commands.*
unfoldable pub use Apply.*
