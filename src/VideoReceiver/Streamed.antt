-- ===== src/VideoReceiver/Streamed.antt =====
-- core/src/video_receiver.cpp: a stream of frames, each fed and popped in its turn.
use loom_client.Common.{
  ℕ, ◌+◌, ◌<◌, pos, leb_ℤ, ◌-ℤ◌, ◌==◌, ◌≡◌, refl, sym, subst, ◌∙◌, ap, arith, Bool, true, false,
  ◌||◌, ◌&&◌, List, [], ◌∷◌, some,
}
use loom_client.Reassembly.{follows}
use loom_client.VideoReceiver.{VideoReceiver, Popped, popped, pop_au}
use loom_client.VideoReceiver.Fragments.{passes}
use loom_client.VideoReceiver.Delivery.{
  Sending, Quiet, feed_sending, after_sending, sent_unit, feed_sending-pop_au,
}

-- What `pop_au` returns after each of the frames.
abbrev pub popped_of : List Sending → VideoReceiver → List Popped
popped_of [] s = []
popped_of (x ∷ xs) s = let r = pop_au (feed_sending x s) in r.0 ∷ popped_of xs r.1

abbrev pub units_of : List Sending → List Popped
units_of [] = []
units_of (x ∷ xs) = popped (sent_unit x.frame) ∷ units_of xs

-- The frames of one stream that are sent after the frame `prev`: each is the successor of the one
-- before, or a later keyframe.
abbrev pub SentAfter : ℕ → ℕ → List Sending → Type 0
SentAfter stream prev [] = Unit {0}
SentAfter stream prev (x ∷ xs) =
    (x.frame.stream ≡ stream)
    × (prev < x.frame.seq)
    × (x.frame.keyframe || (x.frame.seq == prev + 1) ≡ true)
    × SentAfter stream x.frame.seq xs

newer : (prev seq : ℕ) → prev < seq → leb_ℤ (pos seq) (pos prev) ≡ false
newer prev seq h = ground arith

next_passes :
    (keyframe : Bool) (prev seq : ℕ)
    → keyframe || (seq == prev + 1) ≡ true
    → keyframe || (follows (some (pos prev)) seq && true) ≡ true
unfolding follows ◌-ℤ◌
next_passes true prev seq h = refl
next_passes false prev seq h = ground (arith, h)

-- The receiver after a frame has nothing under way.
after_sending-Quiet :
    (x : Sending) (s : VideoReceiver) (stream : ℕ)
    → x.frame.stream ≡ stream
    → Quiet stream (after_sending x s)
after_sending-Quiet x s stream e = record {
  own_stream = e;
  none_pending = refl;
  none_queued = refl;
  none_incomplete = refl;
  all_seen = refl;
}

Quiet-stream : (a b : ℕ) (s : VideoReceiver) → a ≡ b → Quiet a s → Quiet b s
Quiet-stream a b s e q = record {
  own_stream = q.own_stream ∙ e;
  none_pending = q.none_pending;
  none_queued = q.none_queued;
  none_incomplete = q.none_incomplete;
  all_seen = q.all_seen;
}

feed_next :
    (x : Sending) (xs : List Sending) (s : VideoReceiver)
    → Quiet x.frame.stream s
    → leb_ℤ (pos x.frame.seq) s.reasm.newest_complete ≡ false
    → passes x.frame s ≡ true
    → SentAfter x.frame.stream x.frame.seq xs
    → popped_of (x ∷ xs) s ≡ units_of (x ∷ xs)
feed_next x [] s quiet new passed after =
    ap (λ r. r.0 ∷ []) (feed_sending-pop_au x s quiet new passed)
feed_next x (y ∷ ys) s quiet new passed (stream, later, next, rest) =
    let s1 = after_sending x s in
    ap (λ r. r.0 ∷ popped_of (y ∷ ys) r.1) (feed_sending-pop_au x s quiet new passed)
    ∙ ap (λ l. popped (sent_unit x.frame) ∷ l)
        (feed_next y ys s1 (after_sending-Quiet x s y.frame.stream (sym stream))
          (newer x.frame.seq y.frame.seq later) (next_passes y.frame.keyframe _ _ next)
          (subst (λ n. SentAfter n y.frame.seq ys) (sym stream) rest))

-- A receiver with nothing under way is sent a keyframe that is newer than all it completed, and
-- then frames of the same stream of which each is the successor of the one before or a later
-- keyframe. The fragments of a frame arrive in any order, at any times and with any repeats before
-- the last one that is missing, and `pop_au` is called after each frame: it returns every frame's
-- access unit, in the order of the frames, with its keyframe flag, the timestamp of the first
-- eight bytes of the joined payloads and all the bytes behind them.
pub popped_of-units_of :
    (x : Sending) (xs : List Sending) (s : VideoReceiver)
    → Quiet x.frame.stream s
    → leb_ℤ (pos x.frame.seq) s.reasm.newest_complete ≡ false
    → x.frame.keyframe ≡ true
    → SentAfter x.frame.stream x.frame.seq xs
    → popped_of (x ∷ xs) s ≡ units_of (x ∷ xs)
popped_of-units_of x xs s quiet new key after = feed_next x xs s quiet new (rw key) after
