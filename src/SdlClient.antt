-- ===== src/SdlClient.antt =====
-- sdl/src/main.cpp: the main loop of the desktop client. The decoder, the arithmetic of doubles and the
-- decode time of a picture are parameters. What a round is answered, the readings of the clock
-- included, is an argument; the readings while the prebuffered datagrams are fed count as one. `sent`
-- records the calls of `transport.send_control`, `presented` the frames and the values of the overlay
-- that are shown. What is printed, and the text of the overlay, are left out.
pub mod Prebuffer
use loom_client.Common.{
  ℕ, ◌*◌, ℤ, pos, negsuc, ◌-ℤ◌, leb_ℤ, to_i64, ◌==◌, Bool, true, false, not, Option, none, some,
  List, [], ◌∷◌, ◌++◌, length, drop, if◌then◌else◌,
}
use loom_client.Cbor.{integer, no_fields, field}
use loom_client.Control
use loom_client.Control.{encode_frame}
use loom_client.Errors
use loom_client.Text.{codes}
use loom_client.ClockSync.{Estimate}
use loom_client.Session.Ops.{
  Session, HelloParams, Action, send_control, established, media_expected, config_changed,
  fatal_action, closed_action, new_session, poll, on_event, on_control_bytes, on_tick, encode_stats,
}
use loom_client.Session.Ops
use loom_client.Transport.{TransportEvent, connected, control_bytes, datagram, closed}
use loom_client.VideoReceiver.{Counters}
use loom_client.VideoPipeline.{DecodedFrame, VideoPipeline, new_pipeline, feed, take_frame}
use loom_client.Metrics.{
  Doubles, Metrics, OverlayStats, new_metrics, no_counters, on_frame, take_window, overlay, sub_u64,
  thousand,
}

-- 1e6 and 8.0.
abbrev pub million : ℕ
million = 0x412e_8480_0000_0000

abbrev pub eight : ℕ
eight = 0x4020_0000_0000_0000

unfoldable pub idr_request_frame : ℕ → List ℕ
idr_request_frame last_good =
    encode_frame Control.idr_request (field (integer (pos 0)) (integer (pos last_good)) no_fields)

-- `max(0, t)`, as a uint64_t.
abbrev pub not_negative : ℤ → ℕ
not_negative (pos t) = t
not_negative (negsuc t) = 0

abbrev pub rtt_of : Option Estimate → ℕ
rtt_of none = 0
rtt_of (some clk) = not_negative clk.rtt

abbrev pub has_value {ℓ} : {A : Type ℓ} → Option A → Bool
has_value none = false
has_value (some a) = true

-- The renderer is made together with the pipeline.
pub record SdlClient (D F : Type 0) : Type 0 where
  pub session : Session
  pub sent : List (List ℕ)
  pub pipeline : Option (VideoPipeline D F)
  pub prebuffered : List (List ℕ)
  pub current : Option (DecodedFrame F)
  pub presented : List (DecodedFrame F × OverlayStats)
  pub metrics : Metrics
  pub last_stats_us : ℤ
  pub bitrate_base_us : ℤ
  pub bitrate_base : Counters
  pub bitrate_kbps : ℕ
  pub running : Bool
  pub exit_code : ℕ

-- An event of the transport, and the clocks when it is handled.
pub record Incoming : Type 0 where
  pub event : TransportEvent
  pub now_us : ℤ
  pub now_ms : ℤ

pub record Answers : Type 0 where
  pub incoming : List Incoming
  pub tick_us : ℤ
  pub media_us : ℤ
  pub media_ms : ℤ
  pub stats_us : ℤ
  pub shown_us : ℤ
  pub arrival_us : ℤ
  pub quit : Bool

abbrev pub sdl_params : HelloParams
sdl_params = record {
  client_name = codes "loom-sdl";
  codecs = 1 ∷ [];
  max_width = 2560;
  max_height = 1440;
  max_refresh = 90;
  features = 0;
}

module _ {D F : Type 0} (decode : D → List ℕ → D × Option F) (first : D) (decode_us : F → ℕ)
    (fl : Doubles) where
  unfoldable pub new_client : SdlClient D F
  unfolding new_session new_metrics
  new_client = record {
    session = new_session sdl_params;
    sent = [];
    pipeline = none;
    prebuffered = [];
    current = none;
    presented = [];
    metrics = new_metrics;
    last_stats_us = pos 0;
    bitrate_base_us = pos 0;
    bitrate_base = no_counters;
    bitrate_kbps = 0;
    running = true;
    exit_code = 0;
  }

  -- The frames of the IDR requests in a log.
  abbrev pub idr_frames : List (ℤ × ℕ) → List (List ℕ)
  idr_frames [] = []
  idr_frames ((t, last_good) ∷ cs) = idr_request_frame last_good ∷ idr_frames cs

  -- The pipeline sends the IDR requests that a datagram leads to.
  unfoldable pub feed_pipeline : VideoPipeline D F → List ℕ → ℤ → SdlClient D F → SdlClient D F
  unfolding feed
  feed_pipeline p bytes now_ms s =
      let p1 = feed decode bytes now_ms p in
      let new = drop (length p.receiver.requested) p1.receiver.requested in
      record s { pipeline = some p1; sent = s.sent ++ idr_frames new }

  abbrev pub on_datagram : Option (VideoPipeline D F) → List ℕ → ℤ → SdlClient D F → SdlClient D F
  on_datagram none bytes now_ms s = record s { prebuffered = s.prebuffered ++ bytes ∷ [] }
  on_datagram (some p) bytes now_ms s = feed_pipeline p bytes now_ms s

  -- The loop over the prebuffered datagrams.
  unfoldable pub feed_prebuffered :
      VideoPipeline D F → List (List ℕ) → ℤ → SdlClient D F → SdlClient D F
  unfolding feed_pipeline
  feed_prebuffered p [] now_ms s = record s { pipeline = some p }
  feed_prebuffered p (b ∷ bs) now_ms s =
      feed_prebuffered (feed decode b now_ms p) bs now_ms (feed_pipeline p b now_ms s)

  abbrev pub media_for :
      Option (VideoPipeline D F) → (now_us now_ms : ℤ) → SdlClient D F → SdlClient D F
  media_for (some p) now_us now_ms s = s
  media_for none now_us now_ms s =
      record (feed_prebuffered (new_pipeline decode true first) s.prebuffered now_ms s) {
        prebuffered = [];
        last_stats_us = now_us;
        bitrate_base_us = now_us;
      }

  unfoldable pub start_media : (now_us now_ms : ℤ) → SdlClient D F → SdlClient D F
  unfolding feed_prebuffered new_pipeline
  start_media now_us now_ms s = media_for s.pipeline now_us now_ms s

  unfoldable pub handle_transport : Incoming → SdlClient D F → SdlClient D F
  unfolding feed_pipeline
  handle_transport i s = elim i.event [
    | connected ↦ record s { session = on_event Ops.connected s.session }
    | control_bytes bytes ↦ record s { session = on_control_bytes bytes i.now_us s.session }
    | datagram bytes ↦ on_datagram s.pipeline bytes i.now_ms s
    | closed code ↦ record s {
      running = false;
      exit_code = (if not (code == Errors.no_error) then 1 else s.exit_code);
    }
  ]

  unfoldable pub drain_events : List Incoming → SdlClient D F → SdlClient D F
  unfolding handle_transport
  drain_events [] s = s
  drain_events (i ∷ is) s = drain_events is (handle_transport i s)

  unfoldable pub handle_action : Answers → Action → SdlClient D F → SdlClient D F
  unfolding start_media
  handle_action a (send_control bytes) s = record s { sent = s.sent ++ bytes ∷ [] }
  handle_action a established s = s
  handle_action a media_expected s = start_media a.media_us a.media_ms s
  handle_action a config_changed s = s
  handle_action a (fatal_action code) s = record s { exit_code = 1; running = false }
  handle_action a closed_action s = record s { running = false }

  unfoldable pub handle_actions : Answers → List Action → SdlClient D F → SdlClient D F
  unfolding handle_action
  handle_actions a [] s = s
  handle_actions a (x ∷ xs) s = handle_actions a xs (handle_action a x s)

  abbrev pub poll_actions : Answers → SdlClient D F → SdlClient D F
  poll_actions a s =
      let (actions, session) = poll s.session in
      handle_actions a actions (record s { session = session })

  -- The bitrate since the last report.
  abbrev pub bitrate : Counters → ℤ → SdlClient D F → ℕ
  bitrate cur t s =
      let secs = fl.div (fl.of_i64 (t -ℤ s.bitrate_base_us)) million in
      let bytes = fl.of_u64 (sub_u64 cur.bytes s.bitrate_base.bytes) in
      if fl.positive secs then fl.to_u64 (fl.div (fl.div (fl.mul bytes eight) thousand) secs) else 0

  unfoldable pub send_stats : Counters → ℤ → SdlClient D F → SdlClient D F
  send_stats cur t s =
      let clk = s.session.clock_estimate in
      let (report, metrics) = take_window fl cur (rtt_of clk) (has_value clk) s.metrics in
      record s {
        bitrate_kbps = bitrate cur t s;
        bitrate_base = cur;
        bitrate_base_us = t;
        metrics = metrics;
        sent = s.sent ++ encode_stats report ∷ [];
        last_stats_us = t;
      }

  -- STATS and bitrate once per second.
  abbrev pub stats_for : Option (VideoPipeline D F) → ℤ → SdlClient D F → SdlClient D F
  stats_for none t s = s
  stats_for (some p) t s =
      if leb_ℤ (pos 1000000) (t -ℤ s.last_stats_us) then send_stats p.receiver.counters t s else s

  abbrev pub sample : Answers → DecodedFrame F → Option Estimate → Metrics → Metrics
  sample a f none m = m
  sample a f (some clk) m =
      let e2e = a.shown_us -ℤ (to_i64 f.capture_ts -ℤ clk.offset) in
      on_frame fl f.capture_ts a.arrival_us (decode_us f.picture) (not_negative e2e) m

  abbrev pub show_frame : Answers → Option (DecodedFrame F) → SdlClient D F → SdlClient D F
  show_frame a none s = s
  show_frame a (some f) s = record s {
    current = some f;
    metrics = sample a f s.session.clock_estimate s.metrics;
  }

  abbrev pub present : Option (DecodedFrame F) → OverlayStats → SdlClient D F → SdlClient D F
  present none ov s = s
  present (some f) ov s = record s { presented = s.presented ++ (f, ov) ∷ [] }

  -- The newest frame and the overlay, where there is a renderer.
  unfoldable pub render : Option (VideoPipeline D F) → Answers → SdlClient D F → SdlClient D F
  unfolding take_frame on_frame overlay
  render none a s = s
  render (some p) a s =
      let (frame, p1) = take_frame decode p in
      let s1 = show_frame a frame (record s { pipeline = some p1 }) in
      let clk = s1.session.clock_estimate in
      let ov =
        overlay fl p1.receiver.counters (rtt_of clk) (has_value clk) s1.bitrate_kbps s1.metrics in
      let s2 = present s1.current ov s1 in if a.quit then record s2 { running = false } else s2

  abbrev pub report : Answers → SdlClient D F → SdlClient D F
  report a s = stats_for s.pipeline a.stats_us s

  abbrev pub draw : Answers → SdlClient D F → SdlClient D F
  draw a s = render s.pipeline a s

  -- A round of the loop.
  unfoldable pub round : Answers → SdlClient D F → SdlClient D F
  unfolding drain_events handle_actions send_stats render
  round a s =
      let s1 = drain_events a.incoming s in
      let ticked = record s1 { session = on_tick a.tick_us s1.session } in
      draw a (report a (poll_actions a ticked))

  unfoldable pub main_loop : List Answers → SdlClient D F → SdlClient D F
  unfolding round
  main_loop [] s = s
  main_loop (a ∷ as') s = let rest = round a s in if s.running then main_loop as' rest else s
