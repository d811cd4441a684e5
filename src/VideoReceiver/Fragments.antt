-- ===== src/VideoReceiver/Fragments.antt =====
-- core/src/video_receiver.cpp: one datagram of a frame that is under way.
use loom_client.Common.{
  ℕ, ◌≤◌, ◌<◌, ◌^◌, ℤ, pos, leb_ℤ, ◌==◌, ==_refl, le→ltb, drop-append, append-nil, ◌≡◌, refl, sym,
  ◌∙◌, ap, arith, Bool, false, not, ◌&&◌, ◌||◌, List, [], ◌∷◌, ◌++◌, length, drop,
}
use loom_client.OrderedMap.{find, assign}
use loom_client.Datagram.{DatagramHeader, make_header, encode_datagram, encode_header, negotiated}
use loom_client.Datagram.RoundTrip.{IsValid, decode_with_streams-encode_datagram}
use loom_client.Reassembly.{
  Event, Incomplete, deliver_event, Reassembler, insert_index, follows, gate, deliver, max_ℤ, sweep,
  swept,
}
use loom_client.Reassembly
use loom_client.VideoReceiver.{
  Pending, VideoReceiver, stash, count_datagram, count_drops, reassemble, accept, prune,
  prune_pending, fragment_of, feed_datagram, handle_events,
}
use loom_client.VideoReceiver.Table.{Body, whole_body}

-- A frame of a stream, in `count` fragments, with the payload of each.
pub record Sent : Type 0 where
  pub stream : ℕ
  pub seq : ℕ
  pub count : ℕ
  pub keyframe : Bool
  pub body : Body
  pub small_stream : stream < 2 ^ 16
  pub small_seq : seq < 2 ^ 32
  pub small_count : count < 2 ^ 16
  pub body_fits : (i : ℕ) → i < count → length (body i) ≤ 1338
  pub body_long : 8 < length (whole_body body count 0)

module _ (f : Sent) where
  abbrev pub header : ℕ → DatagramHeader
  header i = make_header f.keyframe f.stream f.seq i f.count

  abbrev pub wire : ℕ → List ℕ
  wire i = encode_datagram (header i) (f.body i)

  header-IsValid : (i : ℕ) → i < f.count → IsValid (f.stream ∷ []) (header i)
  unfolding make_header negotiated
  header-IsValid i h = record {
    stream_fits = f.small_stream;
    seq_fits = f.small_seq;
    count_fits = f.small_count;
    index_in_range = h;
    last_iff = ground arith;
    known_stream = ground arith;
  }

  -- Nothing is under way.
  abbrev pub idle : VideoReceiver → VideoReceiver
  idle s = record s {
    stream_id = f.stream;
    pending = [];
    au_queue = [];
    reasm = record s.reasm { incomplete = [] };
    seen_events = length s.reasm.events;
  }

  -- The fragments `have` with the payloads `parts` are there.
  abbrev pub midway : List ℕ → List (ℕ × List ℕ) → VideoReceiver → VideoReceiver
  midway have parts s = record s {
    stream_id = f.stream;
    pending = (f.seq, record { count = f.count; parts = parts }) ∷ [];
    au_queue = [];
    reasm = record s.reasm {
      incomplete = (f.seq, record { need = f.count; have = have; keyframe = f.keyframe }) ∷ [];
    };
    seen_events = length s.reasm.events;
  }

  abbrev pub counted : List ℕ → VideoReceiver → VideoReceiver
  counted d s = count_drops (count_datagram d s)

  -- A frame that the gate lets through: a keyframe, or the successor of the frame decoded last.
  abbrev pub passes : VideoReceiver → Bool
  passes s = f.keyframe || (follows s.reasm.last_decoded f.seq && not s.awaiting_keyframe)

  -- The events that a fragment leads to are handled, each once.
  pub reassemble-new :
      (h : DatagramHeader) (t : ℤ) (s : VideoReceiver) (r : Reassembler) (es : List Event)
      → Reassembly.push t (fragment_of h) s.reasm ≡ r
      → s.seen_events ≡ length s.reasm.events
      → r.events ≡ s.reasm.events ++ es
      → reassemble h t s
        ≡ handle_events es t (record s { reasm = r; seen_events = length r.events })
  unfolding reassemble
  reassemble-new h t s r es e seen more =
      let new : drop s.seen_events r.events ≡ es =
        ap (λ k. drop k r.events) seen
        ∙ ap (λ l. drop (length s.reasm.events) l) more
        ∙ drop-append s.reasm.events es in
      ap
        (λ (q : Reassembler).
          handle_events (drop s.seen_events q.events) t
            (record s { reasm = q; seen_events = length q.events }))
        e
      ∙ ap (λ l. handle_events l t (record s { reasm = r; seen_events = length r.events })) new

  stash-midway :
      (i : ℕ) (p have : List ℕ) (parts : List (ℕ × List ℕ)) (s : VideoReceiver)
      → stash (header i) p (midway have parts s) ≡ midway have (assign i p parts) s
  unfolding find assign make_header
  stash-midway i p have parts s = rw (==_refl f.seq, le→ltb f.seq f.seq (omega arith))

  push-midway :
      (i : ℕ) (have : List ℕ) (t : ℤ) (r : Reassembler)
      → leb_ℤ (pos f.seq) r.newest_complete ≡ false
      → (length (insert_index i have) == f.count) ≡ false
      → Reassembly.push t (fragment_of (header i)) (record r {
        incomplete = (f.seq, record { need = f.count; have = have; keyframe = f.keyframe }) ∷ [];
      })
        ≡ record r {
          incomplete =
              (f.seq, record { need = f.count; have = insert_index i have; keyframe = f.keyframe })
              ∷ [];
        }
  unfolding Reassembly.push Reassembly.add_fragment find assign make_header
  push-midway i have t r new more =
      rw (new, ==_refl f.seq, le→ltb f.seq f.seq (omega arith), more, ==_refl f.seq)

  prune-one : (x : Pending) → prune f.seq ((f.seq, x) ∷ []) ≡ (f.seq, x) ∷ []
  unfolding prune
  prune-one x = ground arith

  pub feed_datagram-accept :
      (i : ℕ) (t : ℤ) (s : VideoReceiver)
      → i < f.count
      → feed_datagram (wire i) t (record s { stream_id = f.stream })
        ≡ accept (header i) (wire i) t (record s { stream_id = f.stream })
  unfolding feed_datagram make_header
  feed_datagram-accept i t s h = rw (
    decode_with_streams-encode_datagram (f.stream ∷ []) (header i) (f.body i) (header-IsValid i h)
        (f.body_fits i h),
    ==_refl f.stream,
  )

  drop-wire : (i : ℕ) → drop 12 (wire i) ≡ f.body i
  unfolding encode_datagram encode_header
  drop-wire i = refl

  -- What follows the reassembly.
  abbrev pub settle : VideoReceiver → VideoReceiver
  settle s = prune_pending f.seq (count_drops s)

  pub accept-midway :
      (i : ℕ) (have : List ℕ) (parts : List (ℕ × List ℕ)) (t : ℤ) (s : VideoReceiver)
      → accept (header i) (wire i) t (midway have parts s)
        ≡ settle (
            reassemble
              (header i)
              t
              (midway have (assign i (f.body i) parts) (count_datagram (wire i) s)))
  unfolding accept make_header
  accept-midway i have parts t s =
      let counted_s = count_datagram (wire i) s in
      ap (λ q. settle (reassemble (header i) t (stash (header i) q (midway have parts counted_s))))
        (drop-wire i)
      ∙ ap (λ x. settle (reassemble (header i) t x))
          (stash-midway i (f.body i) have parts counted_s)

  -- A fragment that leaves the frame incomplete, be it new or a repeat.
  pub midway-feed :
      (i : ℕ) (have : List ℕ) (parts : List (ℕ × List ℕ)) (t : ℤ) (s : VideoReceiver)
      → i < f.count
      → leb_ℤ (pos f.seq) s.reasm.newest_complete ≡ false
      → (length (insert_index i have) == f.count) ≡ false
      → feed_datagram (wire i) t (midway have parts s)
        ≡ midway (insert_index i have) (assign i (f.body i) parts) (counted (wire i) s)
  unfolding handle_events
  midway-feed i have parts t s h new more =
      let counted_s = count_datagram (wire i) s in
      let whole : Pending = record { count = f.count; parts = assign i (f.body i) parts } in
      let r = (midway (insert_index i have) parts s).reasm in
      feed_datagram-accept i t (midway have parts s) h
      ∙ accept-midway i have parts t s
      ∙ ap settle (
          reassemble-new (header i) t (midway have (assign i (f.body i) parts) counted_s) r []
            (push-midway i have t s.reasm new more) refl (sym (append-nil s.reasm.events)))
      ∙ ap
          (λ l.
            record (midway (insert_index i have) (assign i (f.body i) parts) (counted (wire i) s)) {
              pending = l;
            })
          (prune-one whole)

  push-idle :
      (i : ℕ) (t : ℤ) (r : Reassembler)
      → leb_ℤ (pos f.seq) r.newest_complete ≡ false
      → Reassembly.push t (fragment_of (header i)) (record r { incomplete = [] })
        ≡ Reassembly.push t (fragment_of (header i)) (record r {
          incomplete = (f.seq, record { need = f.count; have = []; keyframe = f.keyframe }) ∷ [];
        })
  unfolding Reassembly.push Reassembly.make_room Reassembly.open_frame find assign make_header
  push-idle i t r new = rw (new, ==_refl f.seq)

  stash-idle :
      (i : ℕ) (p : List ℕ) (s : VideoReceiver)
      → (stash (header i) p (idle s)).pending ≡ (stash (header i) p (midway [] [] s)).pending
  unfolding find assign make_header
  stash-idle i p s = rw (==_refl f.seq, le→ltb f.seq f.seq (omega arith))

  pub idle-feed :
      (i : ℕ) (t : ℤ) (s : VideoReceiver)
      → i < f.count
      → leb_ℤ (pos f.seq) s.reasm.newest_complete ≡ false
      → feed_datagram (wire i) t (idle s) ≡ feed_datagram (wire i) t (midway [] [] s)
  unfolding accept reassemble make_header
  idle-feed i t s h new =
      let q = drop 12 (wire i) in
      let counted_s = count_datagram (wire i) s in
      let over : List (ℕ × Pending) → Reassembler → VideoReceiver = λ l. λ r. settle (
        handle_events (drop (length s.reasm.events) r.events) t
          (record (idle counted_s) { pending = l; reasm = r; seen_events = length r.events })) in
      let alone = Reassembly.push t (fragment_of (header i)) (idle s).reasm in
      feed_datagram-accept i t (idle s) h
      ∙ ap (λ l. over l alone) (stash-idle i q counted_s)
      ∙ ap (over (stash (header i) q (midway [] [] counted_s)).pending) (push-idle i t s.reasm new)
      ∙ sym (feed_datagram-accept i t (midway [] [] s) h)
