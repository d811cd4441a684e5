-- ===== src/VideoReceiver/Induction.antt =====
-- core/src/video_receiver.cpp: what the hand-off and the IDR requests preserve, every call preserves,
-- if it does not look at the counters, the reassembler or the pending payloads.
use loom_client.Common.{
  ℕ, ℤ, Bool, Bool-cases, inl, inr, Option, none, some, List, [], ◌∷◌, length, drop, leb, ◌==◌,
}
use loom_client.Result.{Result, ok, err}
use loom_client.OrderedMap.{find, erase}
use loom_client.Datagram.{DatagramHeader, DecodedDatagram, DropReason, header_len}
use loom_client.Reassembly.{Event, Reassembler, deliver_event, idr_request, push}
use loom_client.VideoReceiver.{
  VideoReceiver, Counters, Pending, AccessUnit, request_idr, hand_off, deliver_body,
  deliver_pending, deliver_frame, join_parts, handle_events, reassemble, accept, feed_decoded,
  feed_datagram, fragment_of, count_datagram, count_drops, stash, prune,
}

-- `P` holds of a receiver at time `t`.
module _ {ℓ} (P : VideoReceiver → Type ℓ) (t : ℤ)
    (others : (c : Counters) (r : Reassembler) (n : ℕ) (m : List (ℕ × Pending)) (s : VideoReceiver)
      → P s
      → P (record s { counters = c; reasm = r; seen_events = n; pending = m }))
    (hands : (seq : ℕ) (au : AccessUnit) (s : VideoReceiver) → P s → P (hand_off seq au t s))
    (asks : (g : ℕ) (s : VideoReceiver) → P s → P (request_idr g t s)) where
  deliver_pending-keeps :
      (o : Option Pending) (seq : ℕ) (k : Bool) (s : VideoReceiver)
      → P s
      → P (deliver_pending o seq k t s)
  unfolding deliver_pending deliver_body
  deliver_pending-keeps none seq k s h = h
  deliver_pending-keeps (some p) seq k s h = elim (Bool-cases (length p.parts == p.count)) [
    | inr short ↦ rw short h
    | inl whole ↦
        let erased = others s.counters s.reasm s.seen_events (erase seq s.pending) s h in
        elim (Bool-cases (leb (length (join_parts p.count 0 p.parts)) 8)) [
          | inl small ↦ rw (whole, small) erased
          | inr large ↦ rw (whole, large) (hands seq _ _ erased)
        ]
  ]

  handle_events-keeps : (es : List Event) (s : VideoReceiver) → P s → P (handle_events es t s)
  unfolding handle_events deliver_frame
  handle_events-keeps [] s h = h
  handle_events-keeps (deliver_event u seq k ∷ es) s h =
      handle_events-keeps es _ (deliver_pending-keeps (find seq s.pending) seq k s h)
  handle_events-keeps (idr_request u g ∷ es) s h = handle_events-keeps es _ (asks g s h)

  reassemble-keeps : (hd : DatagramHeader) (s : VideoReceiver) → P s → P (reassemble hd t s)
  unfolding reassemble
  reassemble-keeps hd s h =
      let r = push t (fragment_of hd) s.reasm in
      handle_events-keeps (drop s.seen_events r.events) _
        (others s.counters r (length r.events) s.pending s h)

  accept-keeps : (hd : DatagramHeader) (d : List ℕ) (s : VideoReceiver) → P s → P (accept hd d t s)
  unfolding accept
  accept-keeps hd d s h =
      let counted = count_datagram d s in
      let stashed = stash hd (drop header_len d) counted in
      let s1 = reassemble hd t stashed in
      let s2 = count_drops s1 in
      others s2.counters s1.reasm s1.seen_events (prune hd.frame_seq s1.pending) s1 (
        reassemble-keeps hd stashed
          (others counted.counters s.reasm s.seen_events stashed.pending s h))

  feed_decoded-keeps :
      (r : Result DecodedDatagram DropReason) (d : List ℕ) (s : VideoReceiver)
      → P s
      → P (feed_decoded r d t s)
  feed_decoded-keeps (err e) d s h = h
  feed_decoded-keeps (ok a) d s h = elim (Bool-cases (a.header.stream_id == s.stream_id)) [
    | inl own ↦ rw own (accept-keeps a.header d s h)
    | inr other ↦ rw other h
  ]

  pub feed_datagram-keeps : (d : List ℕ) (s : VideoReceiver) → P s → P (feed_datagram d t s)
  unfolding feed_datagram
  feed_datagram-keeps d s h = feed_decoded-keeps _ d s h
