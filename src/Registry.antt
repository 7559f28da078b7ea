-- ===== src/Registry.antt =====
-- native/src/registry.rs: the peers and channels of one runtime behind numeric handles.
pub mod Types
pub mod State
pub mod Task
pub mod Access
pub mod Builder
pub mod Peers
pub mod Channels
pub mod Callbacks
pub mod Delivery
pub mod Invariant
pub mod Runs
pub mod Still
pub mod Closing
pub mod Shutdown
pub mod Orphans
