-- ===== src/Remote.antt =====
-- A method call from a client's fluent statement to a service's function and back:
-- include/sdbus-c++/ConvenienceApiClasses.inl, include/sdbus-c++/VTableItems.inl, src/Object.cpp and
-- `Connection::callMethod` of src/Connection.cpp.
pub mod Transport
pub mod Service
pub mod Client
pub mod Call
pub mod PropertyBus
pub mod Property
pub mod PropertySound
pub mod PropertyCallbacks
pub mod PropertyGet
pub mod PropertySet
pub mod PropertyCall
pub mod Async
pub mod AsyncCall
pub mod Signal
pub mod SignalSound
mod Tokens
mod SmallProperties
mod PropertyTests
mod Tests
