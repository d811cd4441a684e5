-- ===== src/VideoReceiver/Routing.antt =====
-- core/src/video_receiver.cpp: a receiver takes its own stream out of all datagrams.
use loom_client.Common.{
  ℕ, ℤ, ◌≡◌, refl, ◌∙◌, arith, Bool, true, false, if◌then◌else◌, Bool-cases, inl, inr, List, [],
  ◌∷◌, ◌==◌,
}
use loom_client.Result.{Result, ok, err}
use loom_client.Datagram.{DecodedDatagram, DropReason, decode_with_streams, be16}
use loom_client.VideoReceiver.{
  VideoReceiver, AccessUnit, Call, feed, pop, stop_call, resume_call, request_idr, drop_stale,
  enqueue, hand_off, feed_datagram, feed_decoded, pop_au, stop, resume, run, step, pop_from,
}
use loom_client.VideoReceiver.Induction.{feed_datagram-keeps}

-- The stream field of the datagram is `i`; the other calls are kept.
abbrev pub is_for : ℕ → Call → Bool
is_for i (feed d t) = be16 d 2 == i
is_for i _ = true

-- What an app feeds that routes the datagrams by their stream.
abbrev pub route : ℕ → List Call → List Call
route i [] = []
route i (c ∷ cs) = if is_for i c then c ∷ route i cs else route i cs

request_idr-stream_id :
    (t : ℤ) (g : ℕ) (s : VideoReceiver) → (request_idr g t s).stream_id ≡ s.stream_id
unfolding request_idr
request_idr-stream_id t g s = ground arith

hand_off-stream_id :
    (t : ℤ) (seq : ℕ) (au : AccessUnit) (s : VideoReceiver)
    → (hand_off seq au t s).stream_id ≡ s.stream_id
unfolding hand_off drop_stale enqueue request_idr
hand_off-stream_id t seq au s = ground arith

pub feed_datagram-stream_id :
    (d : List ℕ) (t : ℤ) (s : VideoReceiver) → (feed_datagram d t s).stream_id ≡ s.stream_id
feed_datagram-stream_id d t s =
    feed_datagram-keeps (λ r. r.stream_id ≡ s.stream_id) t (λ c r n m x h. h)
      (λ seq au r h. hand_off-stream_id t seq au r ∙ h) (λ g r h. request_idr-stream_id t g r ∙ h) d
      s refl

pop_from-stream_id :
    (q : List AccessUnit) (s : VideoReceiver) → (pop_from q s).1.stream_id ≡ s.stream_id
pop_from-stream_id [] s = refl
pop_from-stream_id (au ∷ q) s = refl

step-stream_id : (c : Call) (s : VideoReceiver) → (step c s).stream_id ≡ s.stream_id
unfolding pop_au stop resume
step-stream_id (feed d t) s = feed_datagram-stream_id d t s
step-stream_id pop s = pop_from-stream_id s.au_queue s
step-stream_id stop_call s = refl
step-stream_id resume_call s = refl

decoded_stream :
    (b extra : List ℕ) (d : DecodedDatagram)
    → decode_with_streams b extra ≡ ok d
    → d.header.stream_id ≡ be16 b 2
unfolding decode_with_streams
decoded_stream b extra d e = ground arith

-- A datagram of another stream changes nothing.
feed_datagram-foreign :
    (d : List ℕ) (t : ℤ) (s : VideoReceiver)
    → (be16 d 2 == s.stream_id) ≡ false
    → feed_datagram d t s ≡ s
unfolding feed_datagram
feed_datagram-foreign d t s h = go (decode_with_streams d (s.stream_id ∷ [])) refl
  where
    go :
        (r : Result DecodedDatagram DropReason)
        → decode_with_streams d (s.stream_id ∷ []) ≡ r
        → feed_decoded r d t s ≡ s
    go (err e) q = refl
    go (ok a) q = rw (decoded_stream d (s.stream_id ∷ []) a q, h)

step-foreign : (c : Call) (s : VideoReceiver) → is_for s.stream_id c ≡ false → step c s ≡ s
step-foreign (feed d t) s h = feed_datagram-foreign d t s h
step-foreign pop s h = cc
step-foreign stop_call s h = cc
step-foreign resume_call s h = cc

-- Feeding a receiver all datagrams, those of other streams and of the audio among them, is feeding
-- it those whose stream field is its own: the whole state is the same in the end.
pub run-route : (cs : List Call) (s : VideoReceiver) → run cs s ≡ run (route s.stream_id cs) s
unfolding run
run-route [] s = refl
run-route (c ∷ cs) s = elim (Bool-cases (is_for s.stream_id c)) [
  | inl own ↦ rw own (run-route cs (step c s) ∙ rw (step-stream_id c s))
  | inr other ↦ rw (other, step-foreign c s other) (run-route cs s)
]
