-- ===== src/HevcDecoder.antt =====
-- quest/src/hevc_decoder.hpp, quest/src/hevc_decoder.cpp: the decode loop over AMediaCodec. The codec's
-- answers are arguments, and `codec_inputs` and `rendered` record what it is given; `to_ms` is the
-- conversion of nanoseconds into a float. What the loop logs is left out.
pub mod InFlight
pub mod Inputs
use loom_client.Common.{
  ℕ, suc, ◌+◌, ℤ, ◌-ℤ◌, to_i64, to_u64, eqb_ℤ, Bool, true, false, not, ◌||◌, Option, none, some,
  List, [], ◌∷◌, ◌++◌, length, ltb, leb, ◌==◌, if◌then◌else◌,
}
use loom_client.VideoReceiver.{
  AccessUnit, VideoReceiver, Popped, waits, drained, popped, pop_au, resume,
}
use loom_client.VideoReceiver

abbrev pub metrics_sample : ℕ
metrics_sample = 1000

abbrev pub max_in_flight : ℕ
max_in_flight = 2

pub record DecodeMetrics (F : Type 0) : Type 0 where
  pub latencies_ms : List F
  pub latest_ms : F
  pub most_in_flight : ℕ
  pub low_latency_requested : Bool

-- `codec` and `has_receiver` say that `codec_` and `receiver_` are not null; `running` is `running_`
-- while the decode thread is in its loop.
pub record HevcDecoder (F : Type 0) : Type 0 where
  pub codec : Bool
  pub has_receiver : Bool
  pub receiver : VideoReceiver
  pub running : Bool
  pub queued_ns : List (ℤ × ℤ)
  pub metrics : DecodeMetrics F
  pub codec_inputs : List (List ℕ × ℕ)
  pub rendered : ℕ

-- The unordered map from a presentation time to the time at which it was queued.
unfoldable pub find_queued : ℤ → List (ℤ × ℤ) → Option ℤ
find_queued pts [] = none
find_queued pts ((p, t) ∷ m) = if eqb_ℤ p pts then some t else find_queued pts m

unfoldable pub erase_queued : ℤ → List (ℤ × ℤ) → List (ℤ × ℤ)
erase_queued pts [] = []
erase_queued pts ((p, t) ∷ m) = if eqb_ℤ p pts then m else (p, t) ∷ erase_queued pts m

unfoldable pub put_queued : ℤ → ℤ → List (ℤ × ℤ) → List (ℤ × ℤ)
put_queued pts now [] = (pts, now) ∷ []
put_queued pts now ((p, t) ∷ m) =
    if eqb_ℤ p pts then (pts, now) ∷ m else (p, t) ∷ put_queued pts now m

-- `made`: the codec was made; `configured`: it was configured for the surface.
unfoldable pub create :
    {F : Type 0} → (made configured : Bool) → HevcDecoder F → HevcDecoder F × Bool
create made configured s = if not made then (record s { codec = false }, false) else (
  record s { codec = true; metrics = record s.metrics { low_latency_requested = true } },
  configured,
)

unfoldable pub start :
    {F : Type 0} → (codec_started : Bool) → VideoReceiver → HevcDecoder F → HevcDecoder F
start codec_started r s =
    let s1 = record s { receiver = r; has_receiver = true } in
    if not codec_started then s1 else record s1 { running = true }

-- The waiting `pop_au` is unblocked, and the loop ends.
unfoldable pub stop : {F : Type 0} → HevcDecoder F → HevcDecoder F
stop s = record s {
  running = false;
  receiver = (if s.has_receiver then VideoReceiver.stop s.receiver else s.receiver);
}

-- An output of the codec: its presentation time, and the clock when it was taken.
pub record Output : Type 0 where
  pub pts : ℤ
  pub now_ns : ℤ

-- What the codec answers in a round of the loop: the outputs that it has ready; whether it has a
-- free input slot, and then the size of that slot's buffer, if there is one; and the clock.
pub record Answers : Type 0 where
  pub outputs : List Output
  pub has_slot : Bool
  pub capacity : Option ℕ
  pub now_ns : ℤ

module _ {F : Type 0} (to_ms : ℤ → F) where
  abbrev pub add_latency : F → DecodeMetrics F → DecodeMetrics F
  add_latency ms m = record m {
    latest_ms = ms;
    latencies_ms =
        (if ltb (length m.latencies_ms) metrics_sample
          then m.latencies_ms ++ ms ∷ []
          else m.latencies_ms);
  }

  abbrev pub measure : Output → Option ℤ → HevcDecoder F → HevcDecoder F
  measure out none s = s
  measure out (some queued) s = record s {
    queued_ns = erase_queued out.pts s.queued_ns;
    metrics = add_latency (to_ms (out.now_ns -ℤ queued)) s.metrics;
  }

  abbrev pub render : HevcDecoder F → HevcDecoder F
  render s = record s { rendered = s.rendered + 1 }

  unfoldable pub drain_outputs : List Output → HevcDecoder F → HevcDecoder F
  unfolding find_queued erase_queued
  drain_outputs [] s = s
  drain_outputs (out ∷ outs) s =
      drain_outputs outs (render (measure out (find_queued out.pts s.queued_ns) s))

  -- An access unit in a buffer that holds it.
  abbrev pub queue_input : AccessUnit → ℤ → HevcDecoder F → HevcDecoder F
  queue_input au now_ns s =
      let queued = put_queued (to_i64 au.capture_ts) now_ns s.queued_ns in
      record s {
        queued_ns = queued;
        codec_inputs = s.codec_inputs ++ (au.au_data, au.capture_ts) ∷ [];
        metrics = record s.metrics {
          most_in_flight =
              (if ltb s.metrics.most_in_flight (length queued)
                then length queued
                else s.metrics.most_in_flight);
        };
      }

  -- `buffer == nullptr || au->data.size() > capacity`: the unit is dropped.
  abbrev pub try_input : Option ℕ → AccessUnit → ℤ → HevcDecoder F → HevcDecoder F
  try_input none au now_ns s = s
  try_input (some capacity) au now_ns s =
      if ltb capacity (length au.au_data) then s else queue_input au now_ns s

  -- A slot is reserved; where nothing is there `pop_au` waits, and once it is stopped the loop ends.
  abbrev pub feed_popped : Answers → Popped × VideoReceiver → HevcDecoder F → HevcDecoder F
  feed_popped a (waits, r) s = s
  feed_popped a (drained, r) s = record s { receiver = r; running = false }
  feed_popped a (popped au, r) s = try_input a.capacity au a.now_ns (record s { receiver = r })

  -- Behind the drain, where the cap lets a unit in.
  unfoldable pub feed_input : Answers → HevcDecoder F → HevcDecoder F
  unfolding put_queued
  feed_input a s = if not a.has_slot then s else feed_popped a (pop_au s.receiver) s

  -- A round of `decode_loop`. Where `pop_au` waits, the source stays in it with its input buffer; here
  -- the round ends without a change, and the next one drains and asks for a buffer again.
  unfoldable pub decode_round : Answers → HevcDecoder F → HevcDecoder F
  unfolding drain_outputs feed_input
  decode_round a s =
      let gated = leb max_in_flight (length s.queued_ns) in
      let s1 = drain_outputs a.outputs s in
      if not s.running then s else if gated then s1 else feed_input a s1

  unfoldable pub decode_loop : List Answers → HevcDecoder F → HevcDecoder F
  unfolding decode_round
  decode_loop [] s = s
  decode_loop (a ∷ as') s = decode_loop as' (decode_round a s)
