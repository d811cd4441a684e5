-- ===== src/VideoReceiver/Delivery.antt =====
-- core/src/video_receiver.cpp: a frame that arrives whole reaches the decoder as the host cut it up,
-- whatever the order of its fragments.
use loom_client.Common.{
  ℕ, zero, suc, ◌<◌, ℤ, pos, leb_ℤ, ◌==◌, ==_iff, ◌≡◌, refl, sym, ◌∙◌, ap, arith, true, false, List,
  [], ◌∷◌, length, All, if◌then◌else◌,
}
use loom_client.Reassembly.{has_index, insert_index}
use loom_client.VideoReceiver.{
  AccessUnit, VideoReceiver, popped, count_datagram, join_parts, feed_datagram, pop_au,
}
use loom_client.VideoReceiver.Table.{
  whole_body, table, has_index-insert, assign-table, length-table_lt, length-table_full,
  join_parts-table, length-table_insert, Covers,
}
use loom_client.VideoReceiver.Fragments.{
  Sent, wire, idle, midway, counted, passes, midway-feed, idle-feed,
}
use loom_client.VideoReceiver.Completion.{unit_of, rested, last-feed}

-- The indices of the fragments that arrive, each with its time.
abbrev pub indices : List (ℤ × ℕ) → List ℕ
indices [] = []
indices ((t, i) ∷ rest) = i ∷ indices rest

-- A frame and the arrivals of its fragments: `early` in any order and with any repeats, and then the
-- one that was missing.
pub record Sending : Type 0 where
  pub frame : Sent
  pub early : List (ℤ × ℕ)
  pub last_t : ℤ
  pub last_index : ℕ
  pub in_range : All (λ (a : ℤ × ℕ). a.1 < frame.count) early
  pub last_in_range : last_index < frame.count
  pub last_is_new : has_index last_index (indices early) ≡ false
  pub covers : (j : ℕ) → j < frame.count → has_index j (last_index ∷ indices early) ≡ true

abbrev pub feed_fragments : Sent → List (ℤ × ℕ) → VideoReceiver → VideoReceiver
feed_fragments f [] s = s
feed_fragments f ((t, i) ∷ rest) s = feed_fragments f rest (feed_datagram (wire f i) t s)

abbrev pub feed_sending : Sending → VideoReceiver → VideoReceiver
feed_sending x s =
    feed_datagram (wire x.frame x.last_index) x.last_t (feed_fragments x.frame x.early s)

-- `have` and the indices that arrive.
abbrev arrived : List (ℤ × ℕ) → List ℕ → List ℕ
arrived [] have = have
arrived ((t, i) ∷ rest) have = arrived rest (insert_index i have)

abbrev pub counted_all : Sent → List (ℤ × ℕ) → VideoReceiver → VideoReceiver
counted_all f [] s = s
counted_all f ((t, i) ∷ rest) s = counted_all f rest (counted f (wire f i) s)

has_index-arrived :
    (j : ℕ) (l : List (ℤ × ℕ)) (have : List ℕ)
    → has_index j (arrived l have) ≡ (if has_index j have then true else has_index j (indices l))
unfolding has_index
has_index-arrived j [] have = ground arith
has_index-arrived j ((t, i) ∷ rest) have =
    ground (arith, has_index-arrived j rest (insert_index i have), has_index-insert j i have)

-- What is there is counted once each.
abbrev Counted : Sent → List ℕ → Type 0
Counted f have = length have ≡ length (table f.body f.count 0 have)

insert_index-Counted :
    (f : Sent) (i : ℕ) (have : List ℕ)
    → i < f.count
    → Counted f have
    → Counted f (insert_index i have)
unfolding insert_index
insert_index-Counted f i have h count =
    ground
      (arith, count, length-table_insert f.body f.count 0 i have (omega arith) (omega (arith, h)))

missing :
    (f : Sent) (i : ℕ) (have : List ℕ)
    → i < f.count
    → Counted f have
    → has_index i have ≡ false
    → (length have == f.count) ≡ false
missing f i have h count out =
    ground
      (arith, count, length-table_lt f.body f.count 0 i have (omega arith) (omega (arith, h)) out)

module _ (f : Sent) (i : ℕ) (t : ℤ) (h : i < f.count) where
  feed_fragments-midway :
      (early : List (ℤ × ℕ)) (have : List ℕ) (s : VideoReceiver)
      → All (λ (a : ℤ × ℕ). a.1 < f.count) early
      → leb_ℤ (pos f.seq) s.reasm.newest_complete ≡ false
      → passes f s ≡ true
      → Counted f have
      → has_index i have ≡ false
      → has_index i (indices early) ≡ false
      → Covers f.body f.count 0 (insert_index i (arrived early have))
      → pop_au (
          feed_datagram
            (wire f i)
            t
            (feed_fragments f early (midway f have (table f.body f.count 0 have) s)))
        ≡ (
          popped (unit_of f (whole_body f.body f.count 0)),
          rested f t (count_datagram (wire f i) (counted_all f early s)),
        )
  unfolding has_index
  feed_fragments-midway [] have s inside new passed count out late all =
      let full = length-table_full f.body f.count 0 (insert_index i have) all in
      let put = assign-table f.body f.count 0 i have (omega arith) (omega (arith, h)) in
      last-feed f i have (whole_body f.body f.count 0) (table f.body f.count 0 have) t s h new
        ((==_iff _ _).1 (insert_index-Counted f i have h count ∙ full)) passed
        ((==_iff _ _).1 (ap length put ∙ full))
        (ap (join_parts f.count 0) put
          ∙ join_parts-table f.body f.count 0 (insert_index i have) all)
        f.body_long
  feed_fragments-midway ((u, j) ∷ rest) have s (jh, inside) new passed count out late all =
      let count1 = insert_index-Counted f j have jh count in
      let out1 : has_index i (insert_index j have) ≡ false =
        ground (arith, has_index-insert i j have, out, late) in
      ap (λ x. pop_au (feed_datagram (wire f i) t (feed_fragments f rest x)))
        (midway-feed f j have (table f.body f.count 0 have) u s jh new
            (missing f i (insert_index j have) h count1 out1)
          ∙ ap (λ l. midway f (insert_index j have) l (counted f (wire f j) s))
              (assign-table f.body f.count 0 j have (omega arith) (omega (arith, jh))))
      ∙ feed_fragments-midway rest (insert_index j have) (counted f (wire f j) s) inside new passed
          count1 out1 (ground (arith, late)) all

  feed_fragments-idle :
      (early : List (ℤ × ℕ)) (s : VideoReceiver)
      → All (λ (a : ℤ × ℕ). a.1 < f.count) early
      → leb_ℤ (pos f.seq) s.reasm.newest_complete ≡ false
      → feed_datagram (wire f i) t (feed_fragments f early (idle f s))
        ≡ feed_datagram (wire f i) t (feed_fragments f early (midway f [] [] s))
  feed_fragments-idle [] s inside new = idle-feed f i t s h new
  feed_fragments-idle ((u, j) ∷ rest) s inside new =
      ap (λ x. feed_datagram (wire f i) t (feed_fragments f rest x))
        (idle-feed f j u s inside.0 new)

table-empty : (body : ℕ → List ℕ) (n k : ℕ) → table body n k [] ≡ []
unfolding has_index
table-empty body zero k = refl
table-empty body (suc n) k = table-empty body n (suc k)

-- Nothing of the stream is under way.
pub record Quiet (stream : ℕ) (s : VideoReceiver) : Type 0 where
  pub own_stream : s.stream_id ≡ stream
  pub none_pending : s.pending ≡ []
  pub none_queued : s.au_queue ≡ []
  pub none_incomplete : s.reasm.incomplete ≡ []
  pub all_seen : s.seen_events ≡ length s.reasm.events

idle_lem : (f : Sent) (s : VideoReceiver) → Quiet f.stream s → s ≡ idle f s
idle_lem f s q = λ i. record s {
  stream_id = q.own_stream i;
  pending = q.none_pending i;
  au_queue = q.none_queued i;
  reasm = record s.reasm { incomplete = q.none_incomplete i };
  seen_events = q.all_seen i;
}

Complete-arrived :
    (x : Sending)
    → Covers x.frame.body x.frame.count 0 (insert_index x.last_index (arrived x.early []))
unfolding has_index
Complete-arrived x = λ j. λ low. λ high. ground (
  arith,
  high,
  has_index-insert j x.last_index (arrived x.early []),
  has_index-arrived j x.early [],
  x.covers j,
)

-- The access unit of a frame, from its payloads in the order of their indices.
abbrev pub sent_unit : Sent → AccessUnit
sent_unit f = unit_of f (whole_body f.body f.count 0)

-- The receiver once the frame has been fed and popped.
abbrev pub after_sending : Sending → VideoReceiver → VideoReceiver
after_sending x s =
    rested x.frame x.last_t
      (count_datagram (wire x.frame x.last_index) (counted_all x.frame x.early s))

-- A receiver with nothing under way, whose newest complete frame is older than a frame that the
-- gate passes, is fed the fragments of this frame in any order, at any times and with any repeats
-- before the last one that is missing: `pop_au` then returns the frame's access unit and leaves
-- the receiver with nothing under way.
pub feed_sending-pop_au :
    (x : Sending) (s : VideoReceiver)
    → Quiet x.frame.stream s
    → leb_ℤ (pos x.frame.seq) s.reasm.newest_complete ≡ false
    → passes x.frame s ≡ true
    → pop_au (feed_sending x s) ≡ (popped (sent_unit x.frame), after_sending x s)
unfolding has_index
feed_sending-pop_au x s quiet new passed =
    let f = x.frame in
    let start = table-empty f.body f.count 0 in
    let whole : Counted f [] = sym (ap length start) in
    ap (λ r. pop_au (feed_sending x r)) (idle_lem f s quiet)
    ∙ ap pop_au
        (feed_fragments-idle f x.last_index x.last_t x.last_in_range x.early s x.in_range new)
    ∙ ap
        (λ l. pop_au (
          feed_datagram (wire f x.last_index) x.last_t
            (feed_fragments f x.early (midway f [] l s))))
        (sym start)
    ∙ feed_fragments-midway f x.last_index x.last_t x.last_in_range x.early [] s x.in_range new
        passed whole refl x.last_is_new (Complete-arrived x)
