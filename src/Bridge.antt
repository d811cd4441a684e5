-- ===== src/Bridge.antt =====
-- quest-spatial/app/src/main/cpp/jni_bridge.cpp: the bridge from the panels of the window to a session.
-- The user-interface thread calls the functions of the bridge while the thread of `run` goes from
-- place to place; each holds the lock while it touches `surface_events`, so their steps are taken one
-- after the other. A window is a number; `acquired` records the references that the caller took, and
-- `released` the calls of `ANativeWindow_release`. The decoder of a panel is what it was started with.
-- What is logged, and the pause of a round, are left out.
pub mod Panels
pub mod Windows
pub mod Decoders
pub mod Stopping
pub mod Leaked
use loom_client.Common.{
  to_u64, ℕ, ◌+◌, ◌-◌, ◌*◌, ◌/◌, ◌%◌, ◌^◌, bit_and, bit_or, ℤ, pos, negsuc, ltb_ℤ, leb_ℤ, ◌==◌,
  Bool, true, false, ◌||◌, Option, none, some, List, [], ◌∷◌, ◌++◌, length, if◌then◌else◌,
}
use loom_client.Text.{codes}
use loom_client.Session.Ops.{HelloParams}
use loom_client.Transport.{TransportEvent}
use loom_client.VideoReceiver.{VideoReceiver}
use loom_client.VideoReceiver
use loom_client.NetSession.{
  NetSession, new_net_session, pump, request_viewport, finished, stream_ids, feature_multi_display,
}
unfoldable pub use Panels.*

-- Where the thread of `run` is; it applies the events that it has taken.
pub data Place : Type 0 where
  starting pumping taking bringing_up tearing_panels tearing_events ended : Place
  applying : List SurfaceEvent → Place

-- The `Bridge`, and the local variables of `run`.
pub record Bridge : Type 0 where
  pub stopping : Bool
  pub viewport : ℕ
  pub stream_count : ℤ
  pub surface_events : List SurfaceEvent
  pub place : Place
  pub session : NetSession
  pub panels : List (Option Panel)
  pub acquired : List ℕ
  pub released : List ℕ

unfoldable pub apply_event : SurfaceEvent → Bridge → Bridge
unfolding retire put_panel
apply_event ev b = elim ev.slot [
  | negsuc n ↦ record b { released = b.released ++ refs ev.window }
  | pos slot ↦
      let p = panel_at slot b.panels in
      record b {
        session = retire p.decoder slot b.session;
        panels = put_panel slot (record { window = ev.window; decoder = none }) b.panels;
        released = b.released ++ refs p.window;
      }
]

-- What the thread of `run` is answered on its way: whether the connection starts, the events of the
-- transport and the clock of a round, and for which slots `create` succeeds.
pub record Answers : Type 0 where
  pub started : Bool
  pub transport_events : List TransportEvent
  pub now_us : ℤ
  pub creates : ℕ → Bool

-- `session.pump`, the number of the streams, and the VIEWPORT that waits.
unfoldable pub pump_session : Answers → Bridge → Bridge
unfolding pump stream_ids request_viewport
pump_session a b =
    let s = pump a.transport_events a.now_us b.session in
    record b {
      stream_count = to_i32 (length (stream_ids s.receivers));
      session =
          (if b.viewport == 0
            then s
            else request_viewport (b.viewport / 2 ^ 32 % 2 ^ 32) (bit_and b.viewport 0xffff_ffff)
                s);
    }

abbrev pub apply_first : List SurfaceEvent → Bridge → Bridge
apply_first [] b = record b { place = bringing_up }
apply_first (ev ∷ evs) b = record (apply_event ev b) { place = applying evs }

-- A step of the thread of `run`.
unfoldable pub run_step : Answers → Bridge → Bridge
unfolding pump_session apply_event bring_up tear_panels tear_events
run_step a b = elim b.place [
  | starting ↦ record b { place = if a.started then pumping else ended }
  | pumping ↦
      if b.stopping || finished b.session
      then record b { place = tearing_panels }
      else record (pump_session a b) { place = taking }
  | taking ↦ record b { surface_events = []; place = applying b.surface_events }
  | applying events ↦ apply_first events b
  | bringing_up ↦ record b { panels = bring_up a.creates 0 b.session b.panels; place = pumping }
  | tearing_panels ↦
      let (s, ws) = tear_panels b.panels b.session in
      record b { session = s; panels = []; released = b.released ++ ws; place = tearing_events }
  | tearing_events ↦ record b {
    surface_events = [];
    released = b.released ++ tear_events b.surface_events;
    place = ended;
  }
  | ended ↦ b
]

abbrev pub bridge_params : HelloParams
bridge_params = record {
  client_name = codes "loom-panel";
  codecs = 1 ∷ [];
  max_width = 2560;
  max_height = 1440;
  max_refresh = 90;
  features = bit_or 0 feature_multi_display;
}

unfoldable pub new_bridge : Bridge
unfolding new_net_session
new_bridge = record {
  stopping = false;
  viewport = 0;
  stream_count = pos 0;
  surface_events = [];
  place = starting;
  session = new_net_session bridge_params;
  panels = [];
  acquired = [];
  released = [];
}

-- `NativeBridge.start`, of the bridge that runs already, if one does.
unfoldable pub start : Option Bridge → Bridge
unfolding new_bridge
start (some b) = b
start none = new_bridge

unfoldable pub count_streams : Option Bridge → ℤ
count_streams none = pos 0
count_streams (some b) = b.stream_count

-- `NativeBridge.attachSurface`; the window is the reference that `fromSurface` takes.
unfoldable pub attach_surface : ℤ → Option ℕ → Bridge → Bridge
attach_surface slot window b = if ltb_ℤ slot (pos 0) then b else record b {
  surface_events = b.surface_events ++ record { slot = slot; window = window } ∷ [];
  acquired = b.acquired ++ refs window;
}

unfoldable pub detach_surface : ℤ → Bridge → Bridge
detach_surface slot b = if ltb_ℤ slot (pos 0) then b else record b {
  surface_events = b.surface_events ++ record { slot = slot; window = none } ∷ [];
}

unfoldable pub set_viewport : ℤ → ℤ → Bridge → Bridge
set_viewport width height b =
    if leb_ℤ width (pos 0) || leb_ℤ height (pos 0)
    then b
    else record b { viewport = bit_or (to_u64 width * 2 ^ 32 % 2 ^ 64) (to_u64 height) }

-- `NativeBridge.stop`, before it waits for the thread.
unfoldable pub ask_stop : Bridge → Bridge
ask_stop b = record b { stopping = true }

-- A step of either thread.
pub data Act : Type 0 where
  attach : ℤ → Option ℕ → Act
  detach : ℤ → Act
  view : ℤ → ℤ → Act
  stop : Act
  thread : Answers → Act

abbrev pub act : Act → Bridge → Bridge
act (attach slot window) b = attach_surface slot window b
act (detach slot) b = detach_surface slot b
act (view width height) b = set_viewport width height b
act stop b = ask_stop b
act (thread a) b = run_step a b

unfoldable pub acts : List Act → Bridge → Bridge
unfolding attach_surface detach_surface set_viewport ask_stop run_step
acts [] b = b
acts (x ∷ xs) b = acts xs (act x b)
