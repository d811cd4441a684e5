-- ===== src/VideoReceiver/Completion.antt =====
-- core/src/video_receiver.cpp: the datagram that completes a frame, and the receiver after it.
use loom_client.Common.{
  ℕ, ◌<◌, ℤ, pos, leb_ℤ, ltb_ℤ, ◌==◌, ==_refl, le→ltb, leb, ◌≡◌, refl, ◌∙◌, ap, arith, Bool, true,
  false, not, ◌&&◌, ◌||◌, List, [], ◌∷◌, ◌++◌, length, take, drop, some, Option,
}
use loom_client.OrderedMap.{find, assign, erase}
use loom_client.Datagram.{make_header}
use loom_client.Reassembly.{
  deliver_event, Reassembler, insert_index, follows, gate, deliver, sweep, swept,
}
use loom_client.Reassembly
use loom_client.VideoReceiver.{
  AccessUnit, VideoReceiver, popped, join_parts, read_ts, count_datagram, count_drops, add_u64,
  deliver_frame, deliver_pending, deliver_body, hand_off, drop_stale, enqueue, prune, fragment_of,
  feed_datagram, pop_au, handle_events,
}
use loom_client.VideoReceiver.Fragments.{
  Sent, header, wire, midway, passes, settle, reassemble-new, feed_datagram-accept, accept-midway,
}

gate-open :
    (t : ℤ) (seq : ℕ) (keyframe awaiting : Bool) (s : Reassembler)
    → keyframe || (follows s.last_decoded seq && not awaiting) ≡ true
    → gate t seq keyframe s ≡ deliver t seq keyframe s
unfolding gate
gate-open t seq true awaiting s h = refl
gate-open t seq false awaiting s h = ground (arith, h)

newest-max : (seq : ℕ) (newest : ℤ) → leb_ℤ (pos seq) newest ≡ false → ltb_ℤ newest (pos seq) ≡ true
newest-max seq newest h = ground (arith, h)

lt→leb_false : (a b : ℕ) → b < a → leb a b ≡ false
lt→leb_false a b h = ground arith

module _ (f : Sent) where
  -- The reassembler once the frame is delivered.
  abbrev pub advanced : ℤ → Reassembler → Reassembler
  advanced t r = record r {
    newest_complete = pos f.seq;
    last_decoded = some (pos f.seq);
    incomplete = [];
    events = r.events ++ deliver_event t f.seq f.keyframe ∷ [];
  }

  push-last :
      (i : ℕ) (have : List ℕ) (t : ℤ) (awaiting : Bool) (r : Reassembler)
      → leb_ℤ (pos f.seq) r.newest_complete ≡ false
      → (length (insert_index i have) == f.count) ≡ true
      → f.keyframe || (follows r.last_decoded f.seq && not awaiting) ≡ true
      → Reassembly.push t (fragment_of (header f i)) (record r {
        incomplete = (f.seq, record { need = f.count; have = have; keyframe = f.keyframe }) ∷ [];
      })
        ≡ advanced t r
  unfolding Reassembly.push Reassembly.add_fragment Reassembly.complete_frame Reassembly.deliver
      find assign erase sweep swept make_header
  push-last i have t awaiting r new last passed =
      rw
        (
          new,
          ==_refl f.seq,
          le→ltb f.seq f.seq (omega arith),
          last,
          ==_refl f.seq,
          newest-max f.seq r.newest_complete new,
        )
        (rw (==_refl f.seq) (
          gate-open t f.seq f.keyframe awaiting
            (record r { newest_complete = pos f.seq; incomplete = [] }) passed))

  abbrev pub unit_of : List ℕ → AccessUnit
  unit_of body = record {
    capture_ts = read_ts 0 (take 8 body);
    au_data = drop 8 body;
    keyframe = f.keyframe;
  }

  -- The receiver once the frame is popped.
  abbrev pub rested : ℤ → VideoReceiver → VideoReceiver
  rested t s = count_drops (record s {
    stream_id = f.stream;
    counters = record s.counters { frames_received = add_u64 s.counters.frames_received 1 };
    reasm = advanced t s.reasm;
    seen_events = length (s.reasm.events ++ deliver_event t f.seq f.keyframe ∷ []);
    awaiting_keyframe = false;
    last_good_seq = f.seq;
    pending = [];
    au_queue = [];
  })

  closed :
      (keyframe awaiting : Bool) (last : Option ℤ)
      → keyframe || (follows last f.seq && not awaiting) ≡ true
      → awaiting && not keyframe ≡ false
  closed true true last h = refl
  closed true false last h = refl
  closed false true last h = ground (arith, h)
  closed false false last h = refl

  settle-delivered :
      (parts : List (ℕ × List ℕ)) (body : List ℕ) (t : ℤ) (s : VideoReceiver)
      → (length parts == f.count) ≡ true
      → join_parts f.count 0 parts ≡ body
      → 8 < length body
      → s.awaiting_keyframe && not f.keyframe ≡ false
      → pop_au (
          settle f (
            handle_events (deliver_event t f.seq f.keyframe ∷ []) t (record s {
              pending = (f.seq, record { count = f.count; parts = parts }) ∷ [];
              au_queue = [];
            })))
        ≡ (
          popped (unit_of body),
          count_drops (record s {
            counters = record s.counters { frames_received = add_u64 s.counters.frames_received 1 };
            awaiting_keyframe = false;
            last_good_seq = f.seq;
            pending = [];
            au_queue = [];
          }),
        )
  unfolding handle_events deliver_frame deliver_pending deliver_body hand_off drop_stale enqueue
      prune pop_au find erase
  settle-delivered parts body t s all joined long off =
      rw (==_refl f.seq, all, joined, lt→leb_false (length body) 8 long, off) (rw (==_refl f.seq))

  pub last-feed :
      (i : ℕ) (have body : List ℕ) (parts : List (ℕ × List ℕ)) (t : ℤ) (s : VideoReceiver)
      → i < f.count
      → leb_ℤ (pos f.seq) s.reasm.newest_complete ≡ false
      → (length (insert_index i have) == f.count) ≡ true
      → passes f s ≡ true
      → (length (assign i (f.body i) parts) == f.count) ≡ true
      → join_parts f.count 0 (assign i (f.body i) parts) ≡ body
      → 8 < length body
      → pop_au (feed_datagram (wire f i) t (midway f have parts s))
        ≡ (popped (unit_of body), rested t (count_datagram (wire f i) s))
  last-feed i have body parts t s h new last passed all joined long =
      let counted_s = count_datagram (wire f i) s in
      let s1 = midway f have (assign i (f.body i) parts) counted_s in
      let r = advanced t s.reasm in
      ap pop_au (
        feed_datagram-accept f i t (midway f have parts s) h
        ∙ accept-midway f i have parts t s
        ∙ ap (settle f) (
            reassemble-new f (header f i) t s1 r (deliver_event t f.seq f.keyframe ∷ [])
              (push-last i have t s.awaiting_keyframe s.reasm new last passed) refl refl))
      ∙ settle-delivered (assign i (f.body i) parts) body t
          (record s1 { reasm = r; seen_events = length r.events }) all joined long
          (closed f.keyframe s.awaiting_keyframe s.reasm.last_decoded passed)
