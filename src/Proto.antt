-- ===== src/Proto.antt =====
-- The protocol between the engine and the server (crates/iem-engine-proto): the mix state, its
-- caps and its shaping by a topology, the commands, and the control pipe's frames.
pub mod Ids
pub mod Frame
pub mod State
pub mod Msg
pub mod EngineMsg
pub mod Shape
pub mod Equality
pub mod Capped
