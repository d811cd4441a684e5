-- ===== src/VideoReceiver/Assembly.antt =====
-- core/src/video_receiver.cpp: the frames whose fragments are all there, and the hand-off of access
-- units to the decoder.
use loom_client.Common.{
  ℕ, zero, suc, ◌+◌, ◌*◌, ◌%◌, ◌^◌, bit_or, ℤ, pos, negsuc, ◌-ℤ◌, ltb_ℤ, leb_ℤ, Bool, true, false,
  not, ◌&&◌, Option, none, some, List, [], ◌∷◌, ◌++◌, length, take, drop, leb, ◌==◌, if◌then◌else◌,
}
use loom_client.OrderedMap.{find, erase}
use loom_client.Reassembly.{Reassembler}
use loom_client.Reassembly

abbrev pub idr_min_interval_ms : ℤ
idr_min_interval_ms = pos 250

abbrev pub max_pending_aus : ℕ
max_pending_aus = 2

abbrev pub capture_ts_len : ℕ
capture_ts_len = 8

abbrev pub prune_keep : ℕ
prune_keep = 4

pub record AccessUnit : Type 0 where
  pub capture_ts : ℕ
  pub au_data : List ℕ
  pub keyframe : Bool

pub record Counters : Type 0 where
  pub frames_received : ℕ
  pub frames_dropped : ℕ
  pub datagrams : ℕ
  pub bytes : ℕ

-- The payloads of a frame by their index.
pub record Pending : Type 0 where
  pub count : ℕ
  pub parts : List (ℕ × List ℕ)

pub record VideoReceiver : Type 0 where
  pub has_on_idr : Bool
  pub stream_id : ℕ
  pub counters : Counters
  pub reasm : Reassembler
  pub seen_events : ℕ
  pub stale_at_decoder : ℕ
  pub awaiting_keyframe : Bool
  pub last_idr_request_ms : ℤ
  pub last_good_seq : ℕ
  pub pending : List (ℕ × Pending)
  pub au_queue : List AccessUnit
  pub stopped : Bool
  pub requested : List (ℤ × ℕ)

unfoldable pub new_receiver : Bool → ℕ → VideoReceiver
new_receiver has_on_idr stream_id = record {
  has_on_idr = has_on_idr;
  stream_id = stream_id;
  counters = record { frames_received = 0; frames_dropped = 0; datagrams = 0; bytes = 0 };
  reasm = Reassembly.fresh;
  seen_events = 0;
  stale_at_decoder = 0;
  awaiting_keyframe = false;
  last_idr_request_ms = negsuc 0;
  last_good_seq = 0;
  pending = [];
  au_queue = [];
  stopped = false;
  requested = [];
}

-- `n += k` on a uint64_t.
abbrev pub add_u64 : ℕ → ℕ → ℕ
add_u64 n k = (n + k) % 2 ^ 64

unfoldable pub request_idr : ℕ → ℤ → VideoReceiver → VideoReceiver
request_idr last_good now_ms s =
    if not s.has_on_idr
    then s
    else if leb_ℤ (pos 0) s.last_idr_request_ms
        && ltb_ℤ (now_ms -ℤ s.last_idr_request_ms) idr_min_interval_ms
    then s
    else record s {
      last_idr_request_ms = now_ms;
      requested = s.requested ++ (now_ms, last_good) ∷ [];
    }

abbrev pub no_pending : Pending
no_pending = record { count = 0; parts = [] }

abbrev pub or_default {ℓ} : {A : Type ℓ} → A → Option A → A
or_default a none = a
or_default a (some b) = b

-- The loop over the parts: `n` of them are left, the next has the index `i`. A part that is not
-- there is made empty by `parts[i]`.
unfoldable pub join_parts : ℕ → ℕ → List (ℕ × List ℕ) → List ℕ
join_parts zero i parts = []
join_parts (suc n) i parts = or_default [] (find i parts) ++ join_parts n (i + 1) parts

-- `capture_ts = (capture_ts << 8) | body[i]` over the bytes.
unfoldable pub read_ts : ℕ → List ℕ → ℕ
read_ts ts [] = ts
read_ts ts (b ∷ bs) = read_ts (bit_or (ts * 2 ^ 8 % 2 ^ 64) b) bs

-- What is still waiting is dropped if the queue is full.
unfoldable pub drop_stale : VideoReceiver → VideoReceiver
drop_stale s =
    if leb max_pending_aus (length s.au_queue)
    then record s {
      stale_at_decoder = add_u64 s.stale_at_decoder (length s.au_queue);
      au_queue = [];
      awaiting_keyframe = true;
    }
    else s

unfoldable pub enqueue : ℕ → AccessUnit → VideoReceiver → VideoReceiver
enqueue frame_seq au s = record s {
  awaiting_keyframe = false;
  last_good_seq = frame_seq;
  counters = record s.counters { frames_received = add_u64 s.counters.frames_received 1 };
  au_queue = s.au_queue ++ au ∷ [];
}

-- An access unit is handed to the decoder, or waits for a keyframe.
unfoldable pub hand_off : ℕ → AccessUnit → ℤ → VideoReceiver → VideoReceiver
unfolding request_idr drop_stale enqueue
hand_off frame_seq au now_ms s =
    let s1 = drop_stale s in
    if s1.awaiting_keyframe && not au.keyframe
    then request_idr s1.last_good_seq now_ms
        (record s1 { stale_at_decoder = add_u64 s1.stale_at_decoder 1 })
    else enqueue frame_seq au s1

-- The body of a frame whose payloads are all there.
unfoldable pub deliver_body : ℕ → Bool → ℤ → List ℕ → VideoReceiver → VideoReceiver
unfolding hand_off read_ts
deliver_body frame_seq keyframe now_ms body s =
    if leb (length body) capture_ts_len
    then s
    else hand_off frame_seq
        (record {
          capture_ts = read_ts 0 (take capture_ts_len body);
          au_data = drop capture_ts_len body;
          keyframe = keyframe;
        })
        now_ms s

unfoldable pub deliver_pending : Option Pending → ℕ → Bool → ℤ → VideoReceiver → VideoReceiver
unfolding deliver_body join_parts
deliver_pending none frame_seq keyframe now_ms s = s
deliver_pending (some p) frame_seq keyframe now_ms s =
    if not (length p.parts == p.count)
    then s
    else deliver_body frame_seq keyframe now_ms (join_parts p.count 0 p.parts)
        (record s { pending = erase frame_seq s.pending })

unfoldable pub deliver_frame : ℕ → Bool → ℤ → VideoReceiver → VideoReceiver
unfolding deliver_pending
deliver_frame frame_seq keyframe now_ms s =
    deliver_pending (find frame_seq s.pending) frame_seq keyframe now_ms s
