-- ===== src/Tests/QuestRuns.antt =====
-- The theorems on the transport, the decoder and the bridge of the Quest clients at concrete inputs.
use loom_client.Common.{
  ℕ, ℤ, pos, ◌≡◌, refl, arith, true, false, none, some, List, [], ◌∷◌, ◌++◌, All, ◌+◌, take, drop,
}
use loom_client.VideoReceiver.{VideoReceiver, AccessUnit, new_receiver, pop_au}
use loom_client.Transport.{
  new_transport, connection_up, datagram_received, shutdown_by_peer, receive,
}
use loom_client.Transport.Order.{
  Call, connection, send, take_next, run, all_taken, all_reported, run-taken,
}
use loom_client.HevcDecoder.{
  HevcDecoder, Answers, decode_loop, decode_round, feed_input, put_queued, drain_outputs,
}
use loom_client.HevcDecoder.InFlight.{IsCapped, decode_loop-IsCapped}
use loom_client.HevcDecoder.Inputs.{turns, waiting, decode_loop-waiting}
use loom_client.Bridge.{
  Bridge, new_bridge, ended, Act, attach, detach, view, thread, stop, acts, attach_surface,
  run_step, tear_events,
}
use loom_client.Bridge
use loom_client.Bridge.Windows.{count, IsBalanced, acts-IsBalanced}
use loom_client.Bridge.Decoders.{IsAttached, acts-IsAttached}
use loom_client.Bridge.Stopping.{thread_alone, stop_lem}
use loom_client.Bridge.Leaked.{attached, acts-attached}

-- The connection comes up, two datagrams around an event that the loop takes, control bytes in two
-- buffers, and a close.
abbrev calls : List Call
calls =
    connection (connection_up true)
    ∷ connection (datagram_received (1 ∷ 2 ∷ []))
    ∷ take_next
    ∷ connection (datagram_received (3 ∷ []))
    ∷ Call.stream (receive ((4 ∷ []) ∷ (5 ∷ []) ∷ []))
    ∷ send (9 ∷ [])
    ∷ take_next
    ∷ connection (shutdown_by_peer 7)
    ∷ []

run-taken_example :
    let s = new_transport true true in
    all_taken calls s ++ (run calls s).events ≡ s.events ++ all_reported calls
run-taken_example = run-taken calls (new_transport true true)

abbrev unit : ℕ → AccessUnit
unit ts = record { capture_ts = ts; au_data = 1 ∷ 2 ∷ 3 ∷ []; keyframe = true }

abbrev full_receiver : VideoReceiver
full_receiver = record (new_receiver true 0) { au_queue = unit 10 ∷ unit 20 ∷ [] }

-- The unit of a time is the nanosecond.
abbrev same_time : ℤ → ℤ
same_time t = t

abbrev decoder : HevcDecoder ℤ
decoder = record {
  codec = true;
  has_receiver = true;
  receiver = full_receiver;
  running = true;
  queued_ns = [];
  metrics = record {
    latencies_ms = [];
    latest_ms = pos 0;
    most_in_flight = 0;
    low_latency_requested = true;
  };
  codec_inputs = [];
  rendered = 0;
}

-- No slot; a slot; a slot; a frame comes out, and nothing waits.
abbrev rounds : List Answers
rounds =
    record { outputs = []; has_slot = false; capacity = none; now_ns = pos 1 }
    ∷ record { outputs = []; has_slot = true; capacity = some 64; now_ns = pos 2 }
    ∷ record { outputs = []; has_slot = true; capacity = some 3; now_ns = pos 3 }
    ∷ record {
      outputs = record { pts = pos 10; now_ns = pos 9 } ∷ [];
      has_slot = true;
      capacity = some 64;
      now_ns = pos 9;
    }
    ∷ []

decode_loop-IsCapped_example : IsCapped same_time (decode_loop same_time rounds decoder)
decode_loop-IsCapped_example =
    decode_loop-IsCapped same_time rounds decoder (omega arith, omega arith)

-- A slot; none; a slot.
abbrev slots : List Answers
slots =
    record { outputs = []; has_slot = true; capacity = some 64; now_ns = pos 2 }
    ∷ record { outputs = []; has_slot = false; capacity = some 3; now_ns = pos 3 }
    ∷ record { outputs = []; has_slot = true; capacity = some 3; now_ns = pos 4 }
    ∷ []

-- Both units go to the codec.
decode_loop-waiting_example :
    let t = decode_loop same_time slots decoder in
    (t.codec_inputs
      ≡ decoder.codec_inputs ++ take (turns same_time slots decoder) (waiting decoder))
    × (waiting t ≡ drop (turns same_time slots decoder) (waiting decoder))
decode_loop-waiting_example =
    decode_loop-waiting same_time 3 slots decoder
      ((64, refl, omega arith), ((3, refl, omega arith), ((3, refl, omega arith), tt)))
      (omega arith, (omega arith, tt))

two_turns : turns same_time slots decoder ≡ 2
unfolding decode_round feed_input put_queued drain_outputs new_receiver pop_au
two_turns = refl

abbrev answer : Bridge.Answers
answer = record { started = true; transport_events = []; now_us = pos 1000; creates = λ slot. true }

-- Window 7 is attached to slot 1 and replaced by window 8 while the thread goes round.
abbrev taps : List Act
taps =
    attach (pos 1) (some 7)
    ∷ thread answer
    ∷ thread answer
    ∷ thread answer
    ∷ thread answer
    ∷ attach (pos 1) (some 8)
    ∷ view (pos 800) (pos 600)
    ∷ thread answer
    ∷ detach (pos 0)
    ∷ thread answer
    ∷ []

acts-IsBalanced_example : IsBalanced 7 (acts taps new_bridge)
unfolding new_bridge tear_events
acts-IsBalanced_example = acts-IsBalanced 7 taps new_bridge refl

acts-IsAttached_example : All IsAttached (acts taps new_bridge).panels
unfolding new_bridge
acts-IsAttached_example = acts-IsAttached taps new_bridge tt

-- Window 8 in a panel, and windows 7 and 8 on their way to one.
abbrev stopped_bridge : Bridge
stopped_bridge = record new_bridge {
  stopping = true;
  place = Bridge.applying (record { slot = pos 2; window = some 7 } ∷ []);
  panels = none ∷ some (record { window = some 8; decoder = none }) ∷ [];
  surface_events = record { slot = pos 1; window = some 8 } ∷ [];
  acquired = 8 ∷ 7 ∷ 8 ∷ [];
}

abbrev last_steps : List Bridge.Answers
last_steps = answer ∷ answer ∷ answer ∷ answer ∷ answer ∷ answer ∷ []

stop_lem_example :
    ((thread_alone last_steps stopped_bridge).place ≡ ended)
    × (count 8 (thread_alone last_steps stopped_bridge).released ≡ count 8 stopped_bridge.acquired)
unfolding new_bridge tear_events
stop_lem_example = stop_lem 8 last_steps stopped_bridge refl tt refl (omega arith)

-- The connection does not start while window 7 waits for slot 1; it is attached to slot 2 as well.
abbrev refused_taps : List Act
refused_taps =
    attach (pos 1) (some 7) ∷ thread (record answer { started = false }) ∷ thread answer ∷ []

abbrev late_taps : List Act
late_taps = detach (pos 1) ∷ attach (pos 2) (some 7) ∷ thread answer ∷ stop ∷ []

acts-attached_example :
    let b = acts refused_taps new_bridge in
    let c = acts late_taps b in
    count 7 c.acquired
    ≡ count 7 c.released + count 7 (tear_events b.surface_events) + count 7 (attached late_taps)
unfolding new_bridge acts attach_surface run_step
acts-attached_example = acts-attached 7 refused_taps late_taps refl
