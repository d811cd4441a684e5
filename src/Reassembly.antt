-- ===== src/Reassembly.antt =====
-- proto/include/loom/proto/reassembly.hpp, proto/src/reassembly.cpp: the client's receive model.
-- A set of fragment indices is the list of its elements; a time is a ℤ, taken to stay in an int64_t.
pub mod Window
pub mod Lacking
pub mod Events
pub mod Delivery
use loom_client.Common.{
  ℕ, suc, ◌+◌, ◌-◌, ◌%◌, ◌^◌, ℤ, pos, negsuc, ◌-ℤ◌, ltb_ℤ, leb_ℤ, eqb_ℤ, to_u64, Bool, true, false,
  Option, none, some, List, [], ◌∷◌, ◌++◌, length, ltb, leb, ◌==◌, if◌then◌else◌,
}
use loom_client.OrderedMap.{find, assign, erase}

pub record Fragment : Type 0 where
  pub frame_seq : ℕ
  pub frag_index : ℕ
  pub frag_count : ℕ
  pub keyframe : Bool

-- The two kinds of `Event`, each with the fields that are valid for it.
pub data Event : Type 0 where
  deliver_event : (t_ms : ℤ) (frame_seq : ℕ) (keyframe : Bool) → Event
  idr_request : (t_ms : ℤ) (last_good : ℕ) → Event

pub record Counters : Type 0 where
  pub dropped_incomplete : ℕ
  pub discarded_gap : ℕ
  pub stale_fragments : ℕ

-- `counter++` on a uint64_t.
abbrev pub inc : ℕ → ℕ
inc n = (n + 1) % 2 ^ 64

pub record Incomplete : Type 0 where
  pub need : ℕ
  pub have : List ℕ
  pub keyframe : Bool

pub record Reassembler : Type 0 where
  pub newest_complete : ℤ
  pub last_decoded : Option ℤ
  pub incomplete : List (ℕ × Incomplete)
  pub events : List Event
  pub counters : Counters
  pub idr_last_t : Option ℤ

unfoldable pub fresh : Reassembler
fresh = record {
  newest_complete = negsuc 0;
  last_decoded = none;
  incomplete = [];
  events = [];
  counters = record { dropped_incomplete = 0; discarded_gap = 0; stale_fragments = 0 };
  idr_last_t = none;
}

abbrev pub count_stale : Reassembler → Reassembler
count_stale s = record s {
  counters = record s.counters { stale_fragments = inc s.counters.stale_fragments };
}

abbrev pub count_dropped : Reassembler → Reassembler
count_dropped s = record s {
  counters = record s.counters { dropped_incomplete = inc s.counters.dropped_incomplete };
}

-- `have.insert(frag_index)`
unfoldable pub has_index : ℕ → List ℕ → Bool
has_index i [] = false
has_index i (x ∷ xs) = if x == i then true else has_index i xs

unfoldable pub insert_index : ℕ → List ℕ → List ℕ
unfolding has_index
insert_index i have = if has_index i have then have else i ∷ have

unfoldable pub deliver : ℤ → ℕ → Bool → Reassembler → Reassembler
deliver t_ms seq keyframe s = record s {
  events = s.events ++ deliver_event t_ms seq keyframe ∷ [];
  last_decoded = some (pos seq);
}

-- `idr_last_t_ && t_ms - *idr_last_t_ < 250`
unfoldable pub too_soon : ℤ → Option ℤ → Bool
too_soon t_ms none = false
too_soon t_ms (some last) = ltb_ℤ (t_ms -ℤ last) (pos 250)

abbrev pub value_or_zero : Option ℤ → ℤ
value_or_zero none = pos 0
value_or_zero (some i) = i

unfoldable pub maybe_idr : ℤ → Reassembler → Reassembler
maybe_idr t_ms s = if too_soon t_ms s.idr_last_t then s else record s {
  events = s.events ++ idr_request t_ms (to_u64 (value_or_zero s.last_decoded) % 2 ^ 32) ∷ [];
  idr_last_t = some t_ms;
}

-- Rule-1 cleanup: the loop over the frames that are still incomplete, and how many it erased.
unfoldable pub sweep : ℤ → List (ℕ × Incomplete) → List (ℕ × Incomplete)
sweep newest [] = []
sweep newest ((k, e) ∷ m) = if leb_ℤ (pos k) newest then sweep newest m else (k, e) ∷ sweep newest m

unfoldable pub swept : ℤ → List (ℕ × Incomplete) → ℕ → ℕ
swept newest [] n = n
swept newest ((k, e) ∷ m) n = swept newest m (if leb_ℤ (pos k) newest then inc n else n)

-- `last_decoded_ && *last_decoded_ == seq - 1`
unfoldable pub follows : Option ℤ → ℕ → Bool
follows none seq = false
follows (some last) seq = eqb_ℤ last (pos seq -ℤ pos 1)

-- Rule 3: decode gating.
unfoldable pub gate : ℤ → ℕ → Bool → Reassembler → Reassembler
gate t_ms seq keyframe s =
    if keyframe
    then deliver t_ms seq true s
    else if follows s.last_decoded seq
    then deliver t_ms seq false s
    else maybe_idr t_ms
        (record s { counters = record s.counters { discarded_gap = inc s.counters.discarded_gap } })

abbrev pub max_ℤ : ℤ → ℤ → ℤ
max_ℤ a b = if ltb_ℤ a b then b else a

unfoldable pub complete_frame : ℤ → ℕ → Bool → Reassembler → Reassembler
complete_frame t_ms seq keyframe s =
    let newest = max_ℤ s.newest_complete (pos seq) in
    let rest = erase seq s.incomplete in
    gate t_ms seq keyframe (record s {
      newest_complete = newest;
      incomplete = sweep newest rest;
      counters = record s.counters {
        dropped_incomplete = swept newest rest s.counters.dropped_incomplete;
      };
    })

-- The fragment joins its frame, `entry`, which is in the window.
unfoldable pub add_fragment : ℤ → Fragment → Incomplete → Reassembler → Reassembler
add_fragment t_ms frag entry s =
    let have = insert_index frag.frag_index entry.have in
    let kept = assign frag.frame_seq (record entry { have = have }) s.incomplete in
    if length have == entry.need
    then complete_frame t_ms frag.frame_seq entry.keyframe (record s { incomplete = kept })
    else record s { incomplete = kept }

abbrev pub new_entry : Fragment → Incomplete
new_entry frag = record { need = frag.frag_count; have = []; keyframe = frag.keyframe }

-- `emplace`, and the fragment joins the new frame.
unfoldable pub open_frame : ℤ → Fragment → Reassembler → Reassembler
open_frame t_ms frag s =
    add_fragment t_ms frag (new_entry frag)
      (record s { incomplete = assign frag.frame_seq (new_entry frag) s.incomplete })

-- Rule 2: at most two frames in flight. `begin()` is the head of the list.
unfoldable pub make_room : ℤ → Fragment → List (ℕ × Incomplete) → Reassembler → Reassembler
make_room t_ms frag [] s = open_frame t_ms frag s
make_room t_ms frag (x ∷ []) s = open_frame t_ms frag s
make_room t_ms frag ((oldest, e) ∷ x ∷ m) s =
    if ltb oldest frag.frame_seq
    then open_frame t_ms frag (count_dropped (record s { incomplete = erase oldest s.incomplete }))
    else count_stale s

unfoldable pub push : ℤ → Fragment → Reassembler → Reassembler
push t_ms frag s =
    if leb_ℤ (pos frag.frame_seq) s.newest_complete
    then count_stale s
    else elim (find frag.frame_seq s.incomplete) [
      | some entry ↦ add_fragment t_ms frag entry s
      | none ↦ make_room t_ms frag s.incomplete s
    ]

-- Fragments in the order in which they arrive.
unfoldable pub run : List (ℤ × Fragment) → Reassembler → Reassembler
run [] s = s
run ((t, f) ∷ fs) s = run fs (push t f s)
