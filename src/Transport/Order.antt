-- ===== src/Transport/Order.antt =====
-- quest/src/quic_transport.cpp: the loop takes every event once, in the order of the callbacks.
use loom_client.Common.{
  ℕ, ◌≡◌, refl, sym, ◌∙◌, ap, Bool, true, false, Option, none, some, List, [], ◌∷◌, ◌++◌,
  append-nil, append_assoc,
}
use loom_client.Transport.{
  TransportEvent, connected, control_bytes, datagram, closed, QuicTransport, take_front, next_event,
  push, ConnectionEvent, connection_up, datagram_received, shutdown_by_peer, shutdown_by_transport,
  other_connection, on_connection, StreamEvent, receive, send_complete, other_stream, gather,
  on_stream, send_control,
}

-- What msquic's threads and the loop do to a transport, one after the other.
pub data Call : Type 0 where
  connection : ConnectionEvent → Call
  stream : StreamEvent → Call
  send : List ℕ → Call
  take_next : Call

abbrev pub step : Call → QuicTransport → QuicTransport
step (connection e) s = on_connection e s
step (stream e) s = on_stream e s
step (send frame) s = send_control frame s
step take_next s = (next_event s).1

abbrev pub given : Option TransportEvent → List TransportEvent
given none = []
given (some ev) = ev ∷ []

-- What the loop gets from a call.
abbrev pub taken : Call → QuicTransport → List TransportEvent
taken take_next s = given (next_event s).0
taken _ s = []

abbrev pub all_taken : List Call → QuicTransport → List TransportEvent
all_taken [] s = []
all_taken (c ∷ cs) s = taken c s ++ all_taken cs (step c s)

abbrev pub run : List Call → QuicTransport → QuicTransport
run [] s = s
run (c ∷ cs) s = run cs (step c s)

-- What a callback reports: bytes in the order in which they came, and the code of a close.
abbrev pub reported : Call → List TransportEvent
reported (connection (connection_up opened)) = connected ∷ []
reported (connection (datagram_received bytes)) = datagram bytes ∷ []
reported (connection (shutdown_by_peer code)) = closed code ∷ []
reported (connection shutdown_by_transport) = closed 0 ∷ []
reported (connection other_connection) = []
reported (stream (receive buffers)) = control_bytes (gather buffers) ∷ []
reported (stream send_complete) = []
reported (stream other_stream) = []
reported (send frame) = []
reported take_next = []

abbrev pub all_reported : List Call → List TransportEvent
all_reported [] = []
all_reported (c ∷ cs) = reported c ++ all_reported cs

take_front-given :
    (q : List TransportEvent) (s : QuicTransport)
    → s.events ≡ q
    → given (take_front q s).0 ++ (take_front q s).1.events ≡ s.events ++ []
take_front-given [] s e = rw append-nil
take_front-given (ev ∷ q) s e = rw (append-nil, e)

up-events :
    (b : Bool) (s : QuicTransport)
    → (on_connection (connection_up b) s).events ≡ s.events ++ connected ∷ []
unfolding on_connection push
up-events true s = refl
up-events false s = refl

send-events : (frame : List ℕ) (s : QuicTransport) → (send_control frame s).events ≡ s.events
unfolding send_control
send-events frame s = go s.control
  where
    go : (b : Bool) → (send_control frame (record s { control = b })).events ≡ s.events
    go true = refl
    go false = refl

step-taken :
    (c : Call) (s : QuicTransport) → taken c s ++ (step c s).events ≡ s.events ++ reported c
unfolding on_connection on_stream push next_event
step-taken (connection (connection_up b)) s = up-events b s
step-taken (connection (datagram_received bytes)) s = refl
step-taken (connection (shutdown_by_peer code)) s = refl
step-taken (connection shutdown_by_transport) s = refl
step-taken (connection other_connection) s = rw append-nil
step-taken (stream (receive buffers)) s = refl
step-taken (stream send_complete) s = rw append-nil
step-taken (stream other_stream) s = rw append-nil
step-taken (send frame) s = rw (append-nil, send-events frame s)
step-taken take_next s = take_front-given s.events s refl

-- Whatever the order of the callbacks and of the loop's calls: what the loop has taken, and behind it
-- what still waits, is what waited at first and behind it what the callbacks reported, in order.
-- Nothing is lost, made up, doubled or overtaken.
pub run-taken :
    (cs : List Call) (s : QuicTransport)
    → all_taken cs s ++ (run cs s).events ≡ s.events ++ all_reported cs
run-taken [] s = sym (append-nil s.events)
run-taken (c ∷ cs) s =
    append_assoc (taken c s) (all_taken cs (step c s)) (run cs (step c s)).events
    ∙ ap (λ r. taken c s ++ r) (run-taken cs (step c s))
    ∙ sym (append_assoc (taken c s) (step c s).events (all_reported cs))
    ∙ ap (λ r. r ++ all_reported cs) (step-taken c s)
    ∙ append_assoc s.events (reported c) (all_reported cs)
