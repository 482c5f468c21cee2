-- ===== src/Object.antt =====
-- src/Object.cpp, src/Object.h and src/VTableUtils.c: the vtables of a D-Bus object.
pub mod Names
pub mod Search
pub mod Find
pub mod Items
pub mod Register
pub mod Entries
pub mod Callbacks
pub mod Valid
pub mod Dispatch
pub mod Registered
mod Tests
