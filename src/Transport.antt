-- ===== src/Transport.antt =====
-- quest/src/quic_transport.hpp, quest/src/quic_transport.cpp: the queue between msquic's callbacks and
-- the loop that takes the events. A handle is the Bool that it is not null; what a call of msquic
-- answers is an argument. Every push and every take holds the lock, so they are taken one after the
-- other. `sent` records the frames that are given to `StreamSend`, `shutdowns` the codes that are given
-- to `ConnectionShutdown`.
pub mod Order
use loom_client.Common.{
  ℕ, Bool, true, false, not, ◌&&◌, ◌||◌, Option, none, some, List, [], ◌∷◌, ◌++◌, if◌then◌else◌,
}

-- The kinds of `TransportEvent`, each with the fields that are valid for it.
pub data TransportEvent : Type 0 where
  connected : TransportEvent
  control_bytes : List ℕ → TransportEvent
  datagram : List ℕ → TransportEvent
  closed : ℕ → TransportEvent

pub record QuicTransport : Type 0 where
  pub api : Bool
  pub registration : Bool
  pub configuration : Bool
  pub connection : Bool
  pub control : Bool
  pub events : List TransportEvent
  pub sent : List (List ℕ)
  pub shutdowns : List ℕ

unfoldable pub new_transport : (opened registered : Bool) → QuicTransport
new_transport opened registered = record {
  api = opened;
  registration = opened && registered;
  configuration = false;
  connection = false;
  control = false;
  events = [];
  sent = [];
  shutdowns = [];
}

-- `ConfigurationOpen`, and `ConfigurationLoadCredential` where that succeeds.
unfoldable pub open_configuration : (opened loaded : Bool) → QuicTransport → QuicTransport × Bool
open_configuration opened loaded s =
    if not opened then (s, false) else (record s { configuration = true }, loaded)

-- What msquic answers to the calls of `start`, in their order.
pub record StartAnswers : Type 0 where
  pub configuration_open : Bool
  pub credential_load : Bool
  pub connection_open : Bool
  pub connection_start : Bool

abbrev pub connect : StartAnswers → QuicTransport × Bool → QuicTransport × Bool
connect a (s, false) = (s, false)
connect a (s, true) =
    if not a.connection_open
    then (s, false)
    else (record s { connection = true }, a.connection_start)

unfoldable pub start : StartAnswers → QuicTransport → QuicTransport × Bool
unfolding open_configuration
start a s =
    if not s.api || not s.registration
    then (s, false)
    else connect a (open_configuration a.configuration_open a.credential_load s)

unfoldable pub send_control : List ℕ → QuicTransport → QuicTransport
send_control frame s = if not s.control then s else record s { sent = s.sent ++ frame ∷ [] }

unfoldable pub close : ℕ → QuicTransport → QuicTransport
close code s = if not s.connection then s else record s { shutdowns = s.shutdowns ++ code ∷ [] }

pub data Handle : Type 0 where
  control_stream connection_handle configuration_handle registration_handle library : Handle

abbrev pub handle_if : Bool → Handle → List Handle
handle_if true h = h ∷ []
handle_if false h = []

-- The handles that the destructor closes, in its order.
unfoldable pub close_all : QuicTransport → List Handle
close_all s =
    if not s.api
    then []
    else handle_if s.control control_stream
      ++ handle_if s.connection connection_handle
      ++ handle_if s.configuration configuration_handle
      ++ handle_if s.registration registration_handle
      ++ library ∷ []

-- The front of the queue.
abbrev pub take_front : List TransportEvent → QuicTransport → Option TransportEvent × QuicTransport
take_front [] s = (none, s)
take_front (ev ∷ rest) s = (some ev, record s { events = rest })

unfoldable pub next_event : QuicTransport → Option TransportEvent × QuicTransport
next_event s = take_front s.events s

unfoldable pub push : TransportEvent → QuicTransport → QuicTransport
push ev s = record s { events = s.events ++ ev ∷ [] }

-- The events of a connection that the code looks at; CONNECTED carries what `StreamOpen` answers.
pub data ConnectionEvent : Type 0 where
  connection_up : (stream_opened : Bool) → ConnectionEvent
  datagram_received : List ℕ → ConnectionEvent
  shutdown_by_peer : (code : ℕ) → ConnectionEvent
  shutdown_by_transport other_connection : ConnectionEvent

unfoldable pub on_connection : ConnectionEvent → QuicTransport → QuicTransport
unfolding push
on_connection (connection_up opened) s =
    push connected (if opened then record s { control = true } else s)
on_connection (datagram_received bytes) s = push (datagram bytes) s
on_connection (shutdown_by_peer code) s = push (closed code) s
on_connection shutdown_by_transport s = push (closed 0) s
on_connection other_connection s = s

-- The events of the control stream: RECEIVE with its buffers, and the others, which push nothing.
pub data StreamEvent : Type 0 where
  receive : List (List ℕ) → StreamEvent
  send_complete other_stream : StreamEvent

unfoldable pub gather : List (List ℕ) → List ℕ
gather [] = []
gather (b ∷ buffers) = b ++ gather buffers

unfoldable pub on_stream : StreamEvent → QuicTransport → QuicTransport
unfolding push gather
on_stream (receive buffers) s = push (control_bytes (gather buffers)) s
on_stream send_complete s = s
on_stream other_stream s = s
