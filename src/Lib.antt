-- ===== src/Lib.antt =====
-- sdbus-c++: a C++ library over libsystemd's D-Bus functions (sd-bus).
--
-- A message (src/Message.cpp, include/sdbus-c++/Message.h) writes C++ values into an sd-bus message
-- and reads them back; an object (src/Object.cpp) registers methods, signals and properties with a
-- connection and answers libsystemd's callbacks with the client's handlers; a proxy
-- (src/Proxy.cpp) sends calls and invokes the client's callbacks when the answers come.
--
-- The files:
-- - Prelude: lists, error results and tests on the natural numbers. `Result` is a return or a thrown
--   `Exception`; `>>=` stops at the first exception, as a C++ statement sequence does.
-- - Message: `Message.Types` are the D-Bus types and their signatures (include/sdbus-c++/TypeTraits.h);
--   `Message.Write` is `operator<<` and what it calls, `Message.Reader` and `Message.Read` are
--   `operator>>`; `Message.Variant` is `sdbus::Variant` (include/sdbus-c++/Types.h). libsystemd is the
--   parameter `SdBusMessage` of `Message.Api`, with its documented behaviour as the laws
--   `AppendLaws` and `ReadLaws`: any call may fail to append, and a reading call finds nothing only
--   at the end of an array, while at the end of a struct or of the message it fails.
--   `Message.TokenBus` is a bus that has them. `Message.Wire` says what
--   the form of a value in a message is, without regard to how it is written. `Message.Fixed` is
--   reading into `std::array` and `std::span`, `Message.Choice` what the signature of a variant's
--   contents decides: `std::variant` and `Variant::containsValueOfType`. `Message.Handles` are the
--   constructors, assignments and the destructor, with libsystemd's reference counts.
-- - Flags: the flags of members and their conversion for libsystemd (include/sdbus-c++/Flags.h,
--   src/Flags.cpp). A word is a function from the position of a bit.
-- - Handler: exceptions at the callback boundary (src/Utils.h, src/Error.cpp).
-- - Object: `Object.Items` are the records of vtables, `Object.Register` is `Object::addVTable` and
--   what it calls, `Object.Search` the sorted arrays with their binary search, `Object.Callbacks`
--   the static callbacks (src/Object.cpp, src/VTableUtils.c). The client's handlers are a type `H`
--   with a function `run`; a failed assertion is `none`.
-- - Proxy: the pending asynchronous calls of a proxy (src/Proxy.cpp, src/Proxy.h). `Proxy.Calls` are
--   the three critical sections of its container, `Proxy.Events` what the threads of clients and of
--   the event loop do, in any order, with the owners of each call's record. The other files prove
--   what holds after any sequence of events.
-- - Awaitable: the coroutine that awaits a call's answer, and the callback that brings it
--   (include/sdbus-c++/Awaitable.h, `Proxy::callMethodAsync` with an awaitable), as interleavings of
--   the steps of two threads. Memory orders weaker than sequential consistency are not modelled.
-- - Connection: the event loop and the calls that wake it up (src/Connection.cpp).
--   `Connection.System` is the system it runs on, as a parameter: event descriptors with their
--   documented behaviour, poll() and libsystemd's bus. `Connection.Timeout` is the time to wait in
--   poll(), `Connection.Wake` the calls, `Connection.Loop` the loop. A call that throws has changed
--   the state up to there, so each returns the state along with its result. `Connection.Threads` is
--   the loop in one thread and the calls in others, as moves between accesses of shared state, for
--   the connection's own loop and for an sd-event loop that it is attached to. `Connection.SdEvent`
--   is attaching and detaching, with libsystemd's sd-event functions as a parameter.
-- - Remote: a method call from the client's fluent statement to the service's function and back
--   (include/sdbus-c++/ConvenienceApiClasses.inl, include/sdbus-c++/VTableItems.inl). It puts Message
--   and Object together; what carries the messages is the parameter `Transport`. `Remote.Async` are
--   calls that give a future, and methods that answer through a `Result` object
--   (include/sdbus-c++/MethodResult.h), which may complete the call at any later time.
--   `Remote.Signal` is a signal from its emission to a subscriber's callback. `Remote.Property` are
--   properties with their getters and setters; libsystemd's own methods Get and Set, which call back
--   into src/Object.cpp, are the parameter `Remote.PropertyBus`, with the entries that libsystemd
--   finds a property by in `Object.Entries`.
-- - Fluent: a fluent statement as the state of its invoker, whose destructor makes the call
--   (`MethodInvoker` and `SignalEmitter` of include/sdbus-c++/ConvenienceApiClasses.inl).
-- - UnixFd: owned file descriptors (include/sdbus-c++/Types.h, src/Types.cpp).
-- - SdBus: the recursive mutex under which libsystemd is called, and the functions that open a bus
--   (src/SdBus.cpp).
-- - Codegen: signatures and names in the code generator (tools/xml2cpp-codegen/generator_utils.cpp,
--   reserved_names.h), in its first files; in `Codegen.XmlTree` and `Codegen.XmlParse`
--   the tree of the introspection data and the handlers that make it of the XML
--   parser's events (xml.cpp, xml.h). A text is the list of its characters.
--
-- Loops over the elements of a message have fuel: one unit for each element and each level of
-- nesting is enough, which `Readable` states. The binary search has the length of its array as
-- fuel, which is always enough. `waitForNextEvent` calls itself after a wake-up: two rounds are
-- enough, since the event descriptor is clear then. The parser of signatures has a unit for each
-- character of its text, and each round and each call of itself has read one.
--
-- Not modelled. A reader reads into default values; reuse of a target's storage is left out. Of the
-- types of values in messages, file descriptors and enumerations are left out, as are message headers and credentials.
-- Texts of exceptions leave out names that are appended to them. Match rules, slots and object
-- managers forward to libsystemd, and the interface classes and standard interfaces to the
-- implementation.
-- The code generator's printing of C++ text has no description to hold it against.
pub mod Prelude
pub mod Message
pub mod Flags
pub mod Handler
pub mod Object
pub mod Proxy
pub mod Awaitable
pub mod Connection
pub mod Codegen
pub mod Remote
pub mod UnixFd
pub mod Fluent
pub mod SdBus
