-- ===== src/VideoReceiver/Queue.antt =====
-- core/src/video_receiver.cpp: the hand-off to the decode thread holds two access units at most.
use loom_client.Common.{ℕ, ◌≤◌, ℤ, arith, List, [], ◌∷◌, length, length-append}
use loom_client.VideoReceiver.{
  VideoReceiver, AccessUnit, Call, feed, pop, stop_call, resume_call, request_idr, feed_datagram,
  drop_stale, enqueue, hand_off, pop_au, stop, resume, run, pop_from,
}
use loom_client.VideoReceiver.Induction.{feed_datagram-keeps}

abbrev pub IsBounded : VideoReceiver → Type 0
IsBounded s = length s.au_queue ≤ 2

request_idr-IsBounded :
    (t : ℤ) (g : ℕ) (s : VideoReceiver) → IsBounded s → IsBounded (request_idr g t s)
unfolding request_idr
request_idr-IsBounded t g s h = ground arith

hand_off-IsBounded :
    (t : ℤ) (seq : ℕ) (au : AccessUnit) (s : VideoReceiver)
    → IsBounded s
    → IsBounded (hand_off seq au t s)
unfolding hand_off drop_stale enqueue request_idr
hand_off-IsBounded t seq au s h = ground (arith, length-append s.au_queue (au ∷ []))

pop_from-IsBounded :
    (q : List AccessUnit) (s : VideoReceiver)
    → length q ≤ 2
    → IsBounded s
    → IsBounded (pop_from q s).1
pop_from-IsBounded [] s e h = h
pop_from-IsBounded (au ∷ q) s e h = omega arith

pub feed_datagram-IsBounded :
    (d : List ℕ) (t : ℤ) (s : VideoReceiver) → IsBounded s → IsBounded (feed_datagram d t s)
feed_datagram-IsBounded d t s h =
    feed_datagram-keeps IsBounded t (λ c r n m s' k. k) (hand_off-IsBounded t)
      (request_idr-IsBounded t) d s h

-- Whatever the two threads call, in any order, at most two access units wait for the decoder.
pub run-IsBounded : (cs : List Call) (s : VideoReceiver) → IsBounded s → IsBounded (run cs s)
unfolding run pop_au stop resume
run-IsBounded [] s h = h
run-IsBounded (feed d t ∷ cs) s h = run-IsBounded cs _ (feed_datagram-IsBounded d t s h)
run-IsBounded (pop ∷ cs) s h = run-IsBounded cs _ (pop_from-IsBounded s.au_queue s h h)
run-IsBounded (stop_call ∷ cs) s h = run-IsBounded cs _ h
run-IsBounded (resume_call ∷ cs) s h = run-IsBounded cs _ h
