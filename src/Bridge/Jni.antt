-- ===== src/Bridge/Jni.antt =====
-- The native methods of native/src/bridge.rs: the values that they take from the JVM, what they make of
-- their arguments, and what they do on the table of runtimes.
pub mod Values
pub mod Calls
pub mod Peer
pub mod Methods
pub mod Poll
pub mod Buffers
pub mod Polls
pub mod Requests
pub mod Same
pub mod Equivalent
