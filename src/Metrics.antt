-- ===== src/Metrics.antt =====
-- sdl/src/metrics.hpp: the window of the STATS report. The arithmetic of doubles, which the language
-- gives, is a parameter on their patterns; times are taken not to overflow.
pub mod Windows
use loom_client.Common.{
  ℕ, suc, ◌+◌, ◌-◌, ◌*◌, ◌/◌, ◌%◌, ◌^◌, ltb, ◌==◌, ℤ, pos, negsuc, ◌-ℤ◌, ltb_ℤ, leb_ℤ, to_i64, Bool,
  true, false, not, ◌&&◌, Option, none, some, if◌then◌else◌,
}
use loom_client.VideoReceiver.{Counters, add_u64}
use loom_client.Session.Ops.{StatsInput}

-- The operations on doubles, each on 64-bit patterns.
pub record Doubles : Type 0 where
  pub of_i64 : ℤ → ℕ
  pub of_u64 : ℕ → ℕ
  pub to_u64 : ℕ → ℕ
  pub add : ℕ → ℕ → ℕ
  pub sub : ℕ → ℕ → ℕ
  pub mul : ℕ → ℕ → ℕ
  pub div : ℕ → ℕ → ℕ
  pub positive : ℕ → Bool

-- 16.0, 100.0 and 1000.0.
abbrev pub sixteen : ℕ
sixteen = 0x4030_0000_0000_0000

abbrev pub hundred : ℕ
hundred = 0x4059_0000_0000_0000

abbrev pub thousand : ℕ
thousand = 0x408f_4000_0000_0000

-- `a - b` on a uint64_t.
abbrev pub sub_u64 : ℕ → ℕ → ℕ
sub_u64 a b = (a + (2 ^ 64 - b)) % 2 ^ 64

pub record OverlayStats : Type 0 where
  pub e2e_us : ℕ
  pub decode_us : ℕ
  pub rtt_us : ℕ
  pub bitrate_kbps : ℕ
  pub loss_pct : ℕ
  pub have_clock : Bool

pub record Metrics : Type 0 where
  pub decode_sum : ℕ
  pub e2e_sum : ℕ
  pub n : ℕ
  pub last_decode_us : ℕ
  pub last_e2e_us : ℕ
  pub jitter_ms : ℕ
  pub prev_capture : ℤ
  pub prev_arrival : ℤ
  pub base : Counters

abbrev pub no_counters : Counters
no_counters = record { frames_received = 0; frames_dropped = 0; datagrams = 0; bytes = 0 }

unfoldable pub new_metrics : Metrics
new_metrics = record {
  decode_sum = 0;
  e2e_sum = 0;
  n = 0;
  last_decode_us = 0;
  last_e2e_us = 0;
  jitter_ms = 0;
  prev_capture = negsuc 0;
  prev_arrival = negsuc 0;
  base = no_counters;
}

abbrev pub magnitude : ℤ → ℤ
magnitude (pos d) = pos d
magnitude (negsuc d) = pos (suc d)

-- `n ? sum / n : 0`
abbrev pub mean : ℕ → ℕ → ℕ
mean sum n = if n == 0 then 0 else sum / n

module _ (fl : Doubles) where
  abbrev pub next_jitter : ℕ → ℤ → Metrics → ℕ
  next_jitter capture_ts arrival_us s =
      let d = (arrival_us -ℤ s.prev_arrival) -ℤ (to_i64 capture_ts -ℤ s.prev_capture) in
      let ms = fl.div (fl.of_i64 (magnitude d)) thousand in
      if leb_ℤ (pos 0) s.prev_capture
      then fl.add s.jitter_ms (fl.div (fl.sub ms s.jitter_ms) sixteen)
      else s.jitter_ms

  unfoldable pub on_frame : ℕ → ℤ → ℕ → ℕ → Metrics → Metrics
  on_frame capture_ts arrival_us decode_us e2e_us s = record s {
    decode_sum = add_u64 s.decode_sum decode_us;
    e2e_sum = add_u64 s.e2e_sum e2e_us;
    n = add_u64 s.n 1;
    last_decode_us = decode_us;
    last_e2e_us = e2e_us;
    jitter_ms = next_jitter capture_ts arrival_us s;
    prev_capture = to_i64 capture_ts;
    prev_arrival = arrival_us;
  }

  unfoldable pub take_window : Counters → ℕ → Bool → Metrics → StatsInput × Metrics
  take_window cur rtt_us have_clock s = (
    record {
      frames_received = sub_u64 cur.frames_received s.base.frames_received;
      frames_dropped = sub_u64 cur.frames_dropped s.base.frames_dropped;
      datagrams = sub_u64 cur.datagrams s.base.datagrams;
      jitter_ms = s.jitter_ms;
      decode_us = mean s.decode_sum s.n;
      rtt_us = rtt_us;
      e2e_us = (if have_clock && ltb 0 s.n then some (s.e2e_sum / s.n) else none);
      stream_id = 0;
    },
    record s { base = cur; decode_sum = 0; e2e_sum = 0; n = 0 },
  )

  unfoldable pub overlay : Counters → ℕ → Bool → ℕ → Metrics → OverlayStats
  overlay cur rtt_us have_clock bitrate_kbps s =
      let total = add_u64 cur.frames_received cur.frames_dropped in
      record {
        e2e_us = s.last_e2e_us;
        decode_us = s.last_decode_us;
        rtt_us = rtt_us;
        bitrate_kbps = bitrate_kbps;
        have_clock = have_clock;
        loss_pct =
            (if total == 0
              then 0
              else fl.div (fl.mul hundred (fl.of_u64 cur.frames_dropped)) (fl.of_u64 total));
      }
