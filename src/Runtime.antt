-- ===== src/Runtime.antt =====
-- native/src/runtime.rs: the commands of a runtime and what carries them out.
pub mod Command
pub mod Certificate
pub mod Execute
pub mod Forward
pub mod Rotation
pub mod Completion
pub mod Targets
pub mod Calls
pub mod Table
pub mod Sockets
pub mod Create
pub mod Handles
pub mod Control
