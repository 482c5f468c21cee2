-- ===== src/Connection.antt =====
-- src/Connection.cpp: the event loop of a connection, and the calls that wake it up.
pub mod Timeout
pub mod System
pub mod Wake
pub mod Loop
pub mod Threads
pub mod AtWork
pub mod Attended
pub mod SdEvent
pub mod Slots
pub mod Sources
pub mod Attach
mod SdEventTests
mod Counter
mod ThreadsTests
mod Tests
