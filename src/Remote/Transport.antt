-- ===== src/Remote/Transport.antt =====
-- What carries messages between a client and a service: libsystemd and the bus, as parameters.
use sdbus_cpp.Prelude.{true, [], ◌≡◌}
use sdbus_cpp.Message.Api.{SdBusMessage, AppendLaws, ReadLaws}
use sdbus_cpp.Message.Reader.{Reader}

pub record Transport (bus : SdBusMessage) : Type 0 where
  -- A new method call or reply, to write to.
  pub new_message : bus.Msg
  -- The message as its receiver gets it, to read from.
  pub deliver : bus.Msg → Reader bus

-- A new message is empty, and a message arrives with the contents that it was sent with.
pub record TransportLaws (bus : SdBusMessage) (append : AppendLaws bus) (read : ReadLaws bus)
    (transport : Transport bus) : Type 0 where
  pub new_empty : append.written transport.new_message ≡ []
  pub delivered : (m : bus.Msg) → read.rest (transport.deliver m).msg ≡ append.written m
  pub delivered_valid : (m : bus.Msg) → (transport.deliver m).valid ≡ true
