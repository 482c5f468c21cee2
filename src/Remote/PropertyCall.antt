-- ===== src/Remote/PropertyCall.antt =====
-- A property over the bus is its getter and its setter.
use sdbus_cpp.Remote.Transport.{Transport}
use sdbus_cpp.Remote.PropertyBus.{PropertyBus}
