-- ===== src/Tests/DeliveryRuns.antt =====
-- The theorem on a stream of frames, at a keyframe of two fragments, which come in the wrong order and
-- with a repeat, and its successor.
use loom_client.Common.{
  ℕ, ◌<◌, ◌≤◌, length, pos, ◌==◌, ◌≡◌, refl, arith, true, false, List, [], ◌∷◌, if◌then◌else◌,
}
use loom_client.Reassembly.{has_index}
use loom_client.VideoReceiver.{new_receiver}
use loom_client.VideoReceiver.Fragments.{Sent}
use loom_client.VideoReceiver.Delivery.{Sending, Quiet}
use loom_client.VideoReceiver.Streamed.{popped_of, units_of, popped_of-units_of}

-- The timestamp, and two bytes in the second fragment.
abbrev key_body : ℕ → List ℕ
key_body i = if i == 0 then 0 ∷ 0 ∷ 0 ∷ 0 ∷ 0 ∷ 0 ∷ 1 ∷ 2 ∷ 0xaa ∷ [] else 0xbb ∷ 0xcc ∷ []

abbrev delta_body : ℕ → List ℕ
delta_body i = 0 ∷ 0 ∷ 0 ∷ 0 ∷ 0 ∷ 0 ∷ 3 ∷ 4 ∷ 0xdd ∷ []

key_body-fits : (i : ℕ) → i < 2 → length (key_body i) ≤ 1338
key_body-fits i h = ground arith

abbrev key : Sent
key = record {
  stream = 0;
  seq = 7;
  count = 2;
  keyframe = true;
  body = key_body;
  small_stream = omega arith;
  small_seq = omega arith;
  small_count = omega arith;
  body_fits = key_body-fits;
  body_long = omega arith;
}

abbrev delta : Sent
delta = record {
  stream = 0;
  seq = 8;
  count = 1;
  keyframe = false;
  body = delta_body;
  small_stream = omega arith;
  small_seq = omega arith;
  small_count = omega arith;
  body_fits = λ i. λ h. omega arith;
  body_long = omega arith;
}

key-covers : (j : ℕ) → j < 2 → has_index j (0 ∷ 1 ∷ 1 ∷ []) ≡ true
unfolding has_index
key-covers j h = ground (arith, h)

key-late : has_index 0 (1 ∷ 1 ∷ []) ≡ false
unfolding has_index
key-late = refl

delta-covers : (j : ℕ) → j < 1 → has_index j (0 ∷ []) ≡ true
unfolding has_index
delta-covers j h = ground (arith, h)

delta-late : has_index 0 [] ≡ false
unfolding has_index
delta-late = refl

abbrev key_sending : Sending
key_sending = record {
  frame = key;
  early = (pos 3, 1) ∷ (pos 4, 1) ∷ [];
  last_t = pos 9;
  last_index = 0;
  in_range = (omega arith, (omega arith, tt));
  last_in_range = omega arith;
  last_is_new = key-late;
  covers = key-covers;
}

abbrev delta_sending : Sending
delta_sending = record {
  frame = delta;
  early = [];
  last_t = pos 20;
  last_index = 0;
  in_range = tt;
  last_in_range = omega arith;
  last_is_new = delta-late;
  covers = delta-covers;
}

new_receiver-Quiet : Quiet 0 (new_receiver true 0)
unfolding new_receiver loom_client.Reassembly.fresh
new_receiver-Quiet = record {
  own_stream = refl;
  none_pending = refl;
  none_queued = refl;
  none_incomplete = refl;
  all_seen = refl;
}

popped_of-units_of_example :
    popped_of (key_sending ∷ delta_sending ∷ []) (new_receiver true 0)
    ≡ units_of (key_sending ∷ delta_sending ∷ [])
unfolding new_receiver loom_client.Reassembly.fresh
popped_of-units_of_example =
    popped_of-units_of key_sending (delta_sending ∷ []) (new_receiver true 0) new_receiver-Quiet
      refl refl (refl, omega arith, refl, tt)
