-- ===== src/Message.antt =====
-- src/Message.cpp, include/sdbus-c++/Message.h and the serialization part of
-- include/sdbus-c++/TypeTraits.h.
pub mod Types
pub mod Api
pub mod Write
pub mod Reader
pub mod Read
pub mod Wire
pub mod WriteSound
pub mod ReadSound
pub mod ReadLoops
pub mod ReadArrays
pub mod RoundTrip
pub mod Raises
pub mod Variant
pub mod Choice
pub mod ChoiceSound
pub mod Items
pub mod Fixed
pub mod Solid
pub mod FixedLoops
pub mod FixedSound
pub mod TokenBus
pub mod Handles
pub mod Counted
mod Tests
mod FixedTests
mod HandlesTests
