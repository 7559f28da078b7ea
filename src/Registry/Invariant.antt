-- ===== src/Registry/Invariant.antt =====
-- What no task of native/src/registry.rs breaks, whatever the other tasks do meanwhile.
pub mod Defs
pub mod Rules
pub mod Steps
pub mod Fresh
pub mod Operations
pub mod ChannelOperations
pub mod Callbacks
