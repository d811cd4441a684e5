-- ===== src/VideoReceiver.antt =====
-- core/include/loom/core/video_receiver.hpp, core/src/video_receiver.cpp: from media datagrams to the
-- access units of one video stream. Every operation holds the lock while it touches the queue, so
-- the two threads' calls are taken one after the other. `requested` records the calls of `on_idr_`,
-- with their times.
pub mod Assembly
pub mod Induction
pub mod Queue
pub mod Requests
pub mod Routing
pub mod Table
pub mod Fragments
pub mod Completion
pub mod Delivery
pub mod Streamed
use loom_client.Common.{
  ℕ, ◌+◌, ◌-◌, ◌*◌, ◌%◌, ◌^◌, ℤ, true, false, not, ◌&&◌, List, [], ◌∷◌, length, drop, ltb, ◌==◌,
  if◌then◌else◌,
}
use loom_client.Result.{Result, ok, err}
use loom_client.OrderedMap.{find, assign}
use loom_client.Datagram.{
  DatagramHeader, DecodedDatagram, DropReason, decode_with_streams, header_len,
}
use loom_client.Reassembly.{Event, Fragment, deliver_event, idr_request}
use loom_client.Reassembly
unfoldable pub use Assembly.*

abbrev pub handle_event : Event → ℤ → VideoReceiver → VideoReceiver
handle_event (deliver_event t seq keyframe) now_ms s = deliver_frame seq keyframe now_ms s
handle_event (idr_request t last_good) now_ms s = request_idr last_good now_ms s

-- The loop over the events that are new.
unfoldable pub handle_events : List Event → ℤ → VideoReceiver → VideoReceiver
unfolding deliver_frame request_idr
handle_events [] now_ms s = s
handle_events (e ∷ es) now_ms s = handle_events es now_ms (handle_event e now_ms s)

-- `prune`: the loop over the frames, oldest first.
unfoldable pub prune : ℕ → List (ℕ × Pending) → List (ℕ × Pending)
prune newest [] = []
prune newest ((k, p) ∷ m) =
    if ltb prune_keep newest && ltb k (newest - prune_keep) then prune newest m else (k, p) ∷ m

-- Reassembler drops, and the frames dropped at the decoder.
abbrev pub count_drops : VideoReceiver → VideoReceiver
count_drops s =
    let c = s.reasm.counters in
    record s {
      counters = record s.counters {
        frames_dropped =
            (c.dropped_incomplete + c.discarded_gap + c.stale_fragments + s.stale_at_decoder)
            % 2 ^ 64;
      };
    }

-- `pending_[h.frame_seq]`, its count, and the payload at its index.
abbrev pub stash : DatagramHeader → List ℕ → VideoReceiver → VideoReceiver
stash h payload s =
    let old = or_default no_pending (find h.frame_seq s.pending) in
    record s {
      pending =
          assign h.frame_seq
            (record { count = h.frag_count; parts = assign h.frag_index payload old.parts })
            s.pending;
    }

abbrev pub fragment_of : DatagramHeader → Fragment
fragment_of h = record {
  frame_seq = h.frame_seq;
  frag_index = h.frag_index;
  frag_count = h.frag_count;
  keyframe = h.keyframe;
}

-- `reasm_.push` and the events that it appended.
unfoldable pub reassemble : DatagramHeader → ℤ → VideoReceiver → VideoReceiver
unfolding handle_events
reassemble h now_ms s =
    let r = Reassembly.push now_ms (fragment_of h) s.reasm in
    handle_events (drop s.seen_events r.events) now_ms
      (record s { reasm = r; seen_events = length r.events })

abbrev pub count_datagram : List ℕ → VideoReceiver → VideoReceiver
count_datagram datagram s = record s {
  counters = record s.counters {
    datagrams = add_u64 s.counters.datagrams 1;
    bytes = add_u64 s.counters.bytes (length datagram);
  };
}

abbrev pub prune_pending : ℕ → VideoReceiver → VideoReceiver
prune_pending newest s = record s { pending = prune newest s.pending }

-- A datagram of the receiver's own stream.
unfoldable pub accept : DatagramHeader → List ℕ → ℤ → VideoReceiver → VideoReceiver
unfolding reassemble prune
accept h datagram now_ms s =
    let stashed = stash h (drop header_len datagram) (count_datagram datagram s) in
    prune_pending h.frame_seq (count_drops (reassemble h now_ms stashed))

abbrev pub feed_decoded :
    Result DecodedDatagram DropReason → List ℕ → ℤ → VideoReceiver → VideoReceiver
feed_decoded (err e) datagram now_ms s = s
feed_decoded (ok d) datagram now_ms s =
    if not (d.header.stream_id == s.stream_id) then s else accept d.header datagram now_ms s

unfoldable pub feed_datagram : List ℕ → ℤ → VideoReceiver → VideoReceiver
unfolding accept
feed_datagram datagram now_ms s =
    feed_decoded (decode_with_streams datagram (s.stream_id ∷ [])) datagram now_ms s

-- What a call of `pop_au` comes to: it still waits, it returns nullopt, or it returns a unit.
pub data Popped : Type 0 where
  waits drained : Popped
  popped : AccessUnit → Popped

abbrev pub pop_from : List AccessUnit → VideoReceiver → Popped × VideoReceiver
pop_from [] s = (if s.stopped then drained else waits, s)
pop_from (au ∷ rest) s = (popped au, record s { au_queue = rest })

unfoldable pub pop_au : VideoReceiver → Popped × VideoReceiver
pop_au s = pop_from s.au_queue s

unfoldable pub stop : VideoReceiver → VideoReceiver
stop s = record s { stopped = true }

unfoldable pub resume : VideoReceiver → VideoReceiver
resume s = record s { stopped = false }

-- A call by either thread.
pub data Call : Type 0 where
  feed : List ℕ → ℤ → Call
  pop stop_call resume_call : Call

abbrev pub step : Call → VideoReceiver → VideoReceiver
step (feed datagram now_ms) s = feed_datagram datagram now_ms s
step pop s = (pop_au s).1
step stop_call s = stop s
step resume_call s = resume s

unfoldable pub run : List Call → VideoReceiver → VideoReceiver
unfolding feed_datagram pop_au stop resume
run [] s = s
run (c ∷ cs) s = run cs (step c s)
