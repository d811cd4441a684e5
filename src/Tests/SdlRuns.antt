-- ===== src/Tests/SdlRuns.antt =====
-- The theorems on sdl/src/metrics.hpp and sdl/src/main.cpp at concrete inputs: a decoder that counts
-- its frames, and doubles whose operations are those of the whole numbers.
use loom_client.Common.{
  ℕ, suc, ◌+◌, ◌-◌, ◌*◌, ◌/◌, pos, pos_part, ltb, ◌≡◌, refl, arith, true, Option, none, some, List,
  [], ◌∷◌, ◌++◌, length,
}
use loom_client.Transport.{connected, control_bytes, datagram}
use loom_client.VideoReceiver.{Counters}
use loom_client.VideoPipeline.{new_pipeline}
use loom_client.Metrics.{Doubles, mean, new_metrics, take_window}
use loom_client.Metrics.Windows.{Shown, decode_total, e2e_total, mean_if, show, take_window-show}
use loom_client.SdlClient.{SdlClient, Incoming, new_client, drain_events, start_media}
use loom_client.SdlClient.Prebuffer.{datagrams_of, feed_each, start_media-drain_events}

abbrev whole : Doubles
whole = record {
  of_i64 = λ t. pos_part t;
  of_u64 = λ n. n;
  to_u64 = λ n. n;
  add = λ a. λ b. a + b;
  sub = λ a. λ b. a - b;
  mul = λ a. λ b. a * b;
  div = λ a. λ b. a / b;
  positive = λ a. ltb 0 a;
}

abbrev frames : List Shown
frames =
    record { capture_ts = 1000; arrival_us = pos 5000; decode_us = 300; e2e_us = 4000 }
    ∷ record { capture_ts = 2000; arrival_us = pos 6500; decode_us = 500; e2e_us = 4500 }
    ∷ []

abbrev before : Counters
before = record { frames_received = 10; frames_dropped = 1; datagrams = 100; bytes = 9000 }

abbrev after : Counters
after = record { frames_received = 12; frames_dropped = 1; datagrams = 130; bytes = 12000 }

take_window-show_example :
    let first = (take_window whole before 5 true new_metrics).1 in
    let report = (take_window whole after 7 true (show whole frames first)).0 in
    (report.frames_received ≡ 12 - 10)
    × (report.frames_dropped ≡ 1 - 1)
    × (report.datagrams ≡ 130 - 100)
    × (report.decode_us ≡ mean (decode_total frames) (length frames))
    × (report.e2e_us ≡ mean_if true (e2e_total frames) (length frames))
take_window-show_example =
    take_window-show whole frames new_metrics before after 5 7 true true (omega arith) (omega arith)
      (omega arith) (omega arith) (omega arith) (omega arith) (omega arith) (omega arith)
      (omega arith)

abbrev counting : ℕ → List ℕ → ℕ × Option ℕ
counting d [] = (d, none)
counting d (b ∷ bs) = (suc d, some d)

abbrev no_time : ℕ → ℕ
no_time f = 0

abbrev early : List Incoming
early =
    record { event = connected; now_us = pos 1; now_ms = pos 0 }
    ∷ record { event = datagram (0x4c ∷ 1 ∷ []); now_us = pos 2; now_ms = pos 0 }
    ∷ record { event = control_bytes (0 ∷ []); now_us = pos 3; now_ms = pos 0 }
    ∷ record { event = datagram (0x4c ∷ 2 ∷ []); now_us = pos 4; now_ms = pos 0 }
    ∷ []

abbrev client : SdlClient ℕ ℕ
client = new_client counting 0 no_time whole

start_media-drain_events_example :
    let t =
      start_media counting 0 no_time whole
        (pos 9)
        (pos 1)
        (drain_events counting 0 no_time whole early client) in
    (t.pipeline
      ≡ some (
          feed_each counting 0 no_time whole
            (client.prebuffered ++ datagrams_of early)
            (pos 1)
            (new_pipeline counting true 0)))
    × (t.prebuffered ≡ [])
unfolding new_client
start_media-drain_events_example =
    start_media-drain_events counting 0 no_time whole early (pos 9) (pos 1) client refl
