-- ===== src/Tests/VideoRuns.antt =====
-- The theorems on core/src/video_receiver.cpp at concrete inputs.
use loom_client.Common.{ℕ, ◌≤◌, pos, ◌-ℤ◌, ◌≡◌, refl, arith, true, none, List, [], ◌∷◌, length}
use loom_client.OrderedMap.{find, assign, erase}
use loom_client.Datagram.{decode_with_streams, be16, be32, negotiated}
use loom_client.Common.{be_u32}
use loom_client.Reassembly
use loom_client.VideoReceiver.{
  Call, feed, stop_call, popped, new_receiver, feed_datagram, accept, reassemble, handle_events,
  deliver_frame, deliver_pending, deliver_body, join_parts, read_ts, hand_off, drop_stale, enqueue,
  request_idr, prune, pop_au, run, stop,
}
use loom_client.VideoReceiver.Queue.{run-IsBounded}
use loom_client.VideoReceiver.Requests.{AreSpaced, run-AreSpaced}
use loom_client.VideoReceiver.Routing.{route, run-route}

-- The two fragments of the keyframe 1 of stream 0: a time of 258 and the unit 0x40, 0x41.
abbrev first_half : List ℕ
first_half = 0x4c ∷ 1 ∷ 0 ∷ 0 ∷ 0 ∷ 0 ∷ 0 ∷ 1 ∷ 0 ∷ 0 ∷ 0 ∷ 2 ∷ 0 ∷ 0 ∷ 0 ∷ 0 ∷ 0 ∷ []

abbrev second_half : List ℕ
second_half = 0x4c ∷ 3 ∷ 0 ∷ 0 ∷ 0 ∷ 0 ∷ 0 ∷ 1 ∷ 0 ∷ 1 ∷ 0 ∷ 2 ∷ 0 ∷ 1 ∷ 2 ∷ 0x40 ∷ 0x41 ∷ []

-- A frame of stream 1, and one of stream 0 behind a gap.
abbrev audio : List ℕ
audio = 0x4c ∷ 3 ∷ 0 ∷ 1 ∷ 0 ∷ 0 ∷ 0 ∷ 1 ∷ 0 ∷ 0 ∷ 0 ∷ 1 ∷ 9 ∷ []

abbrev behind_gap : List ℕ
behind_gap = 0x4c ∷ 2 ∷ 0 ∷ 0 ∷ 0 ∷ 0 ∷ 0 ∷ 5 ∷ 0 ∷ 0 ∷ 0 ∷ 1 ∷ 9 ∷ []

abbrev calls : List Call
calls =
    feed second_half (pos 3)
    ∷ feed audio (pos 4)
    ∷ feed first_half (pos 5)
    ∷ feed behind_gap (pos 9)
    ∷ stop_call
    ∷ []

-- The fragments arrive in the wrong order and are joined in the right one.
joined :
    (pop_au (run calls (new_receiver true 0))).0
    ≡ popped (record { capture_ts = 258; au_data = 0x40 ∷ 0x41 ∷ []; keyframe = true })
unfolding pop_au run new_receiver feed_datagram accept reassemble handle_events deliver_frame
    deliver_pending deliver_body join_parts read_ts hand_off drop_stale enqueue request_idr prune
    stop decode_with_streams be16 be32 be_u32 negotiated find assign erase Reassembly.fresh
    Reassembly.push Reassembly.make_room Reassembly.open_frame Reassembly.add_fragment
    Reassembly.complete_frame Reassembly.gate Reassembly.deliver Reassembly.maybe_idr
    Reassembly.too_soon Reassembly.follows Reassembly.sweep Reassembly.swept Reassembly.insert_index
    Reassembly.has_index ◌-ℤ◌
joined = refl

run-IsBounded_example : length (run calls (new_receiver true 0)).au_queue ≤ 2
unfolding new_receiver
run-IsBounded_example = run-IsBounded calls (new_receiver true 0) (omega arith)

run-AreSpaced_example : AreSpaced none (run calls (new_receiver true 0)).requested
run-AreSpaced_example = run-AreSpaced calls true 0 (ground arith)

run-route_example :
    run calls (new_receiver true 0)
    ≡ run (route (new_receiver true 0).stream_id calls) (new_receiver true 0)
run-route_example = run-route calls (new_receiver true 0)
