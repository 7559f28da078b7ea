-- ===== src/Bridge.antt =====
-- What the C ABI (native/src/c_bridge.rs) does with a request, with the checks of arguments that it
-- shares with the JNI functions (native/src/bridge.rs).
pub mod Checked
pub mod Arguments
pub mod Masks
pub mod Configuration
pub mod Ports
pub mod Request
pub mod Submit
pub mod Operations
pub mod Boundary
pub mod Memory
pub mod Jni
pub mod CreateRuntime
