-- ===== src/Tests/NetRuns.antt =====
-- The theorems on quest/src/net_session.cpp at concrete inputs.
use loom_client.Common.{pos, ◌≡◌, refl, arith, true, All, [], ◌∷◌, ◌++◌, List}
use loom_client.Transport.{TransportEvent, connected, control_bytes, datagram, closed}
use loom_client.Transport.{QuicTransport, new_transport}
use loom_client.NetSession.Linked.{pump_linked, new_frames, pump_linked-pump}
use loom_client.NetSession.{NetSession, new_net_session, pump}
use loom_client.NetSession.Streams.{IsServed, pump-IsServed}
use loom_client.VideoReceiver.{new_receiver}
use loom_client.Tests.SessionRuns.{quest}

abbrev reports : List TransportEvent
reports = connected ∷ control_bytes (0 ∷ 0 ∷ []) ∷ datagram (0x4c ∷ []) ∷ closed 7 ∷ []

new_net_session-IsServed : All IsServed (new_net_session quest).receivers
unfolding new_net_session new_receiver
new_net_session-IsServed = ((refl, omega arith), tt)

pump-IsServed_example : All IsServed (pump reports (pos 2000) (new_net_session quest)).receivers
pump-IsServed_example =
    pump-IsServed reports (pos 2000) (new_net_session quest) new_net_session-IsServed

-- A client that has built the receivers of two displays.
abbrev two_displays : NetSession
two_displays = record (new_net_session quest) {
  receivers = (0, new_receiver true 0) ∷ (2, new_receiver true 2) ∷ [];
  extra_receivers_built = true;
}

abbrev open_transport : QuicTransport
open_transport = new_transport true true

pump_linked-pump_example :
    pump_linked
      (pos 2000)
      (new_net_session quest)
      (record open_transport { control = true; events = reports })
    ≡ (
      pump reports (pos 2000) (new_net_session quest),
      record open_transport {
        control = true;
        events = [];
        sent =
            open_transport.sent
            ++ new_frames (new_net_session quest) (pump reports (pos 2000) (new_net_session quest));
      },
    )
pump_linked-pump_example =
    pump_linked-pump reports (pos 2000) (new_net_session quest) open_transport
