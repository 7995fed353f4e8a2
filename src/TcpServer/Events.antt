-- ===== src/TcpServer/Events.antt =====
-- daisyway/src/internal/daisyway/net/tcp_server/events.rs.
use daisyway.Base.{ℕ}
use daisyway.Crypto.Key.{Key}
use daisyway.Osk.{SetOskReason}

pub record AcceptEvent (Stream Addr : Type 0) : Type 0 where
  pub stream : Stream
  pub addr : Addr

pub record ExitEvent : Type 0 where
  pub connection_id : ℕ

pub record OskEvent : Type 0 where
  pub connection_id : ℕ
  pub key : Key
  pub reason : SetOskReason

pub data ConnectionHandlerEvent : Type 0 where
  exit : ExitEvent → ConnectionHandlerEvent
  osk : OskEvent → ConnectionHandlerEvent

pub data StreamEvent (Stream Addr : Type 0) : Type 0 where
  accept : AcceptEvent Stream Addr → StreamEvent Stream Addr
  exit : ExitEvent → StreamEvent Stream Addr
  osk : OskEvent → StreamEvent Stream Addr

-- `From<ConnectionHandlerEvent> for StreamEvent`.
unfoldable pub from : {Stream Addr : Type 0} → ConnectionHandlerEvent → StreamEvent Stream Addr
from (ConnectionHandlerEvent.exit e) = StreamEvent.exit e
from (ConnectionHandlerEvent.osk e) = StreamEvent.osk e
