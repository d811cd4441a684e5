-- ===== src/XrApp.antt =====
-- quest/src/xr_app.hpp, quest/src/xr_app.cpp: the windows of the Quest client and what it does with
-- its session, once per frame. What OpenXR, the surface and the decoder answer, and the readings of
-- the clock, are arguments; the arithmetic of doubles is a parameter. The drawing and the placement
-- of the windows are left out.
pub mod Events
pub mod Levels
pub mod Served
pub mod Lines
pub mod Overlaid
pub mod Frame
pub mod Framed
pub mod Setup
pub mod Loop
use loom_client.Common.{
  ℕ, zero, suc, ◌+◌, ◌*◌, ◌/◌, ◌%◌, ◌^◌, ℤ, pos, negsuc, ◌-ℤ◌, leb_ℤ, to_u64, ltb, ◌==◌, Bool, true,
  false, not, ◌&&◌, ◌||◌, Option, none, some, List, [], ◌∷◌, ◌++◌, if◌then◌else◌,
}
use loom_client.ClockSync.{Estimate}
use loom_client.Session.Config.{SessionConfig, StreamConfig}
use loom_client.Session.Ops.{StatsInput}
use loom_client.Transport.{TransportEvent}
use loom_client.VideoReceiver.{VideoReceiver, Counters}
use loom_client.Metrics.{Doubles, no_counters, sub_u64, thousand}
use loom_client.NetSession.{NetSession, receiver, pump, send_stats, to_ms}
use loom_client.SdlClient.{million, eight, not_negative, rtt_of}

-- The size of the cylinder's swapchain where the stream has none.
abbrev pub cylinder_width : ℕ
cylinder_width = 2560

abbrev pub cylinder_height : ℕ
cylinder_height = 1440

pub record DesktopWindow : Type 0 where
  pub stream_id : ℕ
  pub width : ℕ
  pub height : ℕ
  pub mip_count : ℕ
  pub painted : Bool
  pub decoder_active : Bool
  pub e2e_us : ℕ
  pub have_e2e : Bool

pub record XrApp : Type 0 where
  pub windows : List DesktopWindow
  pub net_session : Option NetSession
  pub last_stats_us : ℤ
  pub bitrate_kbps : ℕ
  pub bitrate_base_bytes : ℕ
  pub bitrate_base_us : ℤ

-- What is made for a stream: a swapchain with all its levels, one with a single level, a surface, a
-- decoder.
pub record Makes : Type 0 where
  pub levels : ℕ → Bool
  pub single : ℕ → Bool
  pub surface : ℕ → Bool
  pub decoder : ℕ → Bool

-- `for (dim = ...; dim > 1; dim >>= 1) ++mip_count`, with fuel for the rounds.
unfoldable pub halvings : ℕ → ℕ → ℕ
halvings zero dim = 0
halvings (suc fuel) dim = let rest = halvings fuel (dim / 2) in if ltb 1 dim then suc rest else 0

-- A uint32_t has 32 bits.
unfoldable pub mip_levels : ℕ → ℕ → ℕ
unfolding halvings
mip_levels width height = suc (halvings 32 (if ltb width height then height else width))

-- The levels of the swapchain that is made, if one is.
unfoldable pub create_swapchain : Makes → ℕ → ℕ → ℕ → Option ℕ
unfolding mip_levels
create_swapchain mk stream_id width height =
    if mk.levels stream_id
    then some (mip_levels width height)
    else if mk.single stream_id
    then some 1
    else none

abbrev pub size_or : ℕ → ℕ → ℕ
size_or size default = if size == 0 then default else size % 2 ^ 32

abbrev pub new_window : StreamConfig → ℕ → DesktopWindow
new_window c levels = record {
  stream_id = c.stream_id;
  width = size_or c.width cylinder_width;
  height = size_or c.height cylinder_height;
  mip_count = levels;
  painted = false;
  decoder_active = false;
  e2e_us = 0;
  have_e2e = false;
}

abbrev pub window_with : Makes → StreamConfig → Option ℕ → List DesktopWindow
window_with mk c none = []
window_with mk c (some levels) = if mk.surface c.stream_id then new_window c levels ∷ [] else []

-- The window of an extra display, if its stream is served and all is made.
unfoldable pub window_for : Makes → StreamConfig → Option VideoReceiver → List DesktopWindow
unfolding create_swapchain
window_for mk c none = []
window_for mk c (some rx) = window_with mk c (
    create_swapchain mk c.stream_id (size_or c.width cylinder_width)
      (size_or c.height cylinder_height))

unfoldable pub add_windows :
    Makes → List (ℕ × VideoReceiver) → List StreamConfig → List DesktopWindow → List DesktopWindow
unfolding window_for
add_windows mk receivers [] ws = ws
add_windows mk receivers (c ∷ cs) ws =
    add_windows mk receivers cs (ws ++ window_for mk c (receiver c.stream_id receivers))

abbrev pub windows_for :
    Makes
    → List (ℕ × VideoReceiver)
    → Option SessionConfig
    → List DesktopWindow
    → List DesktopWindow
windows_for mk receivers none ws = ws
windows_for mk receivers (some cfg) ws = add_windows mk receivers cfg.extra_streams ws

-- A decoder is brought up where the stream is served.
abbrev pub activate : Makes → Option VideoReceiver → DesktopWindow → DesktopWindow
activate mk none w = w
activate mk (some rx) w = if mk.decoder w.stream_id then record w { decoder_active = true } else w

unfoldable pub activate_all :
    Makes → List (ℕ × VideoReceiver) → List DesktopWindow → List DesktopWindow
activate_all mk receivers [] = []
activate_all mk receivers (w ∷ ws) =
    activate mk (receiver w.stream_id receivers) w ∷ activate_all mk receivers ws

unfoldable pub start_decoder : Makes → NetSession → List DesktopWindow → List DesktopWindow
unfolding add_windows activate_all
start_decoder mk net ws =
    activate_all mk net.receivers (windows_for mk net.receivers net.session.config ws)

unfoldable pub any_active : List DesktopWindow → Bool
any_active [] = false
any_active (w ∷ ws) = w.decoder_active || any_active ws

-- The receiver of the primary stream.
abbrev pub primary_counters : List (ℕ × VideoReceiver) → Counters
primary_counters [] = no_counters
primary_counters ((sid, r) ∷ rs) = r.counters

abbrev pub e2e_of : DesktopWindow → Option ℕ
e2e_of w = if w.have_e2e then some w.e2e_us else none

-- The report of a window; `decode_us` is read from its decoder's metrics.
abbrev pub report_of : (decode_us rtt_us : ℕ) → DesktopWindow → VideoReceiver → StatsInput
report_of decode_us rtt_us w rx = record {
  frames_received = rx.counters.frames_received;
  frames_dropped = rx.counters.frames_dropped;
  datagrams = rx.counters.datagrams;
  jitter_ms = 0;
  decode_us = decode_us;
  rtt_us = rtt_us;
  e2e_us = e2e_of w;
  stream_id = w.stream_id;
}

abbrev pub send_if :
    (decode_us rtt_us : ℕ) → DesktopWindow → Option VideoReceiver → NetSession → NetSession
send_if decode_us rtt_us w none net = net
send_if decode_us rtt_us w (some rx) net = send_stats (report_of decode_us rtt_us w rx) net

unfoldable pub report_all : (ℕ → ℕ) → ℕ → List DesktopWindow → NetSession → NetSession
unfolding send_stats receiver
report_all decode_us rtt_us [] net = net
report_all decode_us rtt_us (w ∷ ws) net = report_all decode_us rtt_us ws (
    if w.decoder_active
    then send_if (decode_us w.stream_id) rtt_us w (receiver w.stream_id net.receivers) net
    else net)

-- What a call of `pump_network` is answered.
pub record Answers : Type 0 where
  pub transport_events : List TransportEvent
  pub now_us : ℤ
  pub makes : Makes
  pub decode_us : ℕ → ℕ

module _ (fl : Doubles) where
  abbrev pub next_bitrate : ℕ → ℤ → XrApp → ℕ
  next_bitrate bytes now s =
      let secs = fl.div (fl.of_i64 (now -ℤ s.bitrate_base_us)) million in
      let since = fl.of_u64 (sub_u64 bytes s.bitrate_base_bytes) in
      if fl.positive secs
      then fl.to_u64 (fl.div (fl.div (fl.mul since eight) thousand) secs)
      else s.bitrate_kbps

  -- The decoders start when START has come in this pump.
  abbrev pub begin_streaming : Answers → NetSession → XrApp → XrApp
  begin_streaming a net s =
      if net.just_started_streaming
      then record s {
        windows = start_decoder a.makes net s.windows;
        last_stats_us = a.now_us;
        bitrate_base_us = a.now_us;
        bitrate_base_bytes = 0;
      }
      else s

  -- One report per streamed display, every second.
  abbrev pub report_stats : Answers → NetSession → XrApp → XrApp
  report_stats a net s =
      let bytes = (primary_counters net.receivers).bytes in
      let rtt = rtt_of net.session.clock_estimate in
      if any_active s.windows && leb_ℤ (pos 1000000) (a.now_us -ℤ s.last_stats_us)
      then record s {
        bitrate_kbps = next_bitrate bytes a.now_us s;
        bitrate_base_bytes = bytes;
        bitrate_base_us = a.now_us;
        net_session = some (report_all a.decode_us rtt s.windows net);
        last_stats_us = a.now_us;
      }
      else record s { net_session = some net }

  abbrev pub pump_for : Option NetSession → Answers → XrApp → XrApp
  pump_for none a s = s
  pump_for (some net) a s =
      let pumped = pump a.transport_events a.now_us net in
      report_stats a pumped (begin_streaming a pumped s)

  unfoldable pub pump_network : Answers → XrApp → XrApp
  unfolding pump start_decoder any_active report_all
  pump_network a s = pump_for s.net_session a s
