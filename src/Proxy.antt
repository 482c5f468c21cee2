-- ===== src/Proxy.antt =====
-- src/Proxy.cpp and src/Proxy.h: the asynchronous calls of a proxy.
pub mod Counts
pub mod Calls
pub mod Events
pub mod Owners
pub mod Invariant
pub mod Removal
pub mod Safety
pub mod Cancelled
pub mod Heard
mod Tests
