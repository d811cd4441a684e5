-- ===== src/XrApp/Events.antt =====
-- quest/src/xr_app.cpp, quest/src/main.cpp: the host of the configuration file, the events of OpenXR
-- and of Android, the frames that the decoders produce, and the loop. `stoi` is std::stoi, which gives
-- none where it throws.
use loom_client.Common.{
  ℕ, ◌%◌, ◌^◌, ℤ, ◌-ℤ◌, to_u64, ◌==◌, Bool, true, false, not, ◌&&◌, ◌||◌, Option, none, some, List,
  [], ◌∷◌, if◌then◌else◌,
}
use loom_client.Text.{codes}
use loom_client.ClockSync.{Estimate}
use loom_client.Session.Ops.{HelloParams}
use loom_client.NetSession.{NetSession, new_net_session, feature_multi_display, to_ms}
use loom_client.SdlClient.{not_negative}
use loom_client.XrApp.{DesktopWindow, XrApp}

abbrev pub is_trailing : ℕ → Bool
is_trailing c = c == 0x0a || c == 0x0d || c == b' '

abbrev pub keep_unless_trailing : ℕ → List ℕ → List ℕ
keep_unless_trailing c [] = if is_trailing c then [] else c ∷ []
keep_unless_trailing c (d ∷ s) = c ∷ d ∷ s

unfoldable pub trim_line : List ℕ → List ℕ
trim_line [] = []
trim_line (c ∷ s) = keep_unless_trailing c (trim_line s)

abbrev pub behind_colon : ℕ → List ℕ × Option (List ℕ) → List ℕ × Option (List ℕ)
behind_colon c (host, some port) = (c ∷ host, some port)
behind_colon c (host, none) = if c == b':' then ([], some host) else (c ∷ host, none)

-- `rfind(':')` and the two parts, if there is a colon.
unfoldable pub split_host : List ℕ → List ℕ × Option (List ℕ)
split_host [] = ([], none)
split_host (c ∷ s) = behind_colon c (split_host s)

-- What a line names: nothing, a host with its port, or a port that std::stoi throws on.
pub data Target : Type 0 where
  nothing throws : Target
  address : (host : List ℕ) (port : ℕ) → Target

abbrev pub default_port : ℕ
default_port = 47800

abbrev pub unless_empty : List ℕ → ℕ → Target
unless_empty [] port = nothing
unless_empty (c ∷ host) port = address (c ∷ host) port

abbrev pub with_port : List ℕ → Option ℤ → Target
with_port host none = throws
with_port host (some port) = unless_empty host (to_u64 port % 2 ^ 16)

abbrev pub target_of : (stoi : List ℕ → Option ℤ) → List ℕ × Option (List ℕ) → Target
target_of stoi (host, none) = unless_empty host default_port
target_of stoi (host, some port) = with_port host (stoi port)

unfoldable pub parse_line : (stoi : List ℕ → Option ℤ) → List ℕ → Target
unfolding trim_line split_host
parse_line stoi line = target_of stoi (split_host (trim_line line))

abbrev pub quest_params : HelloParams
quest_params = record {
  client_name = codes "loom-quest";
  codecs = 1 ∷ [];
  max_width = 2560;
  max_height = 1440;
  max_refresh = 90;
  features = feature_multi_display;
}

-- None where `std::stoi` throws: nothing catches it, and the program ends.
abbrev pub connect_to : Target → (started : Bool) → XrApp → Option XrApp
connect_to nothing started s = some s
connect_to throws started s = none
connect_to (address host port) started s =
    some
      (record s { net_session = (if started then some (new_net_session quest_params) else none) })

-- The first line of the file, if there is one; `started`: the connection started.
unfoldable pub connect_from_config :
    (stoi : List ℕ → Option ℤ) → Option (List ℕ) → (started : Bool) → XrApp → Option XrApp
unfolding parse_line new_net_session
connect_from_config stoi none started s = some s
connect_from_config stoi (some line) started s = connect_to (parse_line stoi line) started s

-- The states of an OpenXR session that the code tells apart; READY with whether the session begins.
pub data SessionState : Type 0 where
  ready : (begun : Bool) → SessionState
  stopping exiting loss_pending other_state : SessionState

pub data XrEvent : Type 0 where
  state_changed : SessionState → XrEvent
  instance_loss_pending other_event : XrEvent

-- The fields of the app that the events of OpenXR and of Android set.
pub record Shell : Type 0 where
  pub session_running : Bool
  pub exit_requested : Bool
  pub resumed : Bool
  pub destroy_requested : Bool
  pub overlay_visible : Bool
  pub layer_settings_supported : Bool
  pub sharpening_on : Bool

unfoldable pub handle_session_state : SessionState → Shell → Shell
handle_session_state (ready begun) s = record s { session_running = begun }
handle_session_state stopping s = record s { session_running = false }
handle_session_state exiting s = record s { exit_requested = true }
handle_session_state loss_pending s = record s { exit_requested = true }
handle_session_state other_state s = s

abbrev pub handle_event : XrEvent → Shell → Shell
handle_event (state_changed state) s = handle_session_state state s
handle_event instance_loss_pending s = record s { exit_requested = true }
handle_event other_event s = s

unfoldable pub poll_events : List XrEvent → Shell → Shell
unfolding handle_session_state
poll_events [] s = s
poll_events (e ∷ es) s = poll_events es (handle_event e s)

unfoldable pub toggle_sharpening : Shell → Shell
toggle_sharpening s =
    if not s.layer_settings_supported then s else record s { sharpening_on = not s.sharpening_on }

pub data AppCmd : Type 0 where
  resume pause other_cmd : AppCmd

unfoldable pub on_app_cmd : AppCmd → Shell → Shell
on_app_cmd resume s = record s { resumed = true }
on_app_cmd pause s = record s { resumed = false }
on_app_cmd other_cmd s = s

-- A key that goes down, or any other input.
pub data Input : Type 0 where
  volume_up volume_down other_input : Input

-- Whether the input is consumed, and the app behind it.
unfoldable pub on_input : Input → Shell → Bool × Shell
unfolding toggle_sharpening
on_input volume_up s = (true, record s { overlay_visible = not s.overlay_visible })
on_input volume_down s = (true, toggle_sharpening s)
on_input other_input s = (false, s)

-- Whether the wait for an Android event blocks.
unfoldable pub blocks : Shell → Bool
blocks s = not s.resumed && not s.session_running && not s.destroy_requested

-- A new frame of a surface: its timestamp, and the clock when it is shown.
pub record Shown : Type 0 where
  pub ts_ns : ℤ
  pub now_us : ℤ

abbrev pub with_delay : Shown → Option Estimate → DesktopWindow → DesktopWindow
with_delay f none w = w
with_delay f (some clk) w =
    let e2e = f.now_us -ℤ (to_ms f.ts_ns -ℤ clk.offset) in
    record w { e2e_us = not_negative e2e; have_e2e = true }

abbrev pub when_new : Option Shown → Option Estimate → DesktopWindow → DesktopWindow
when_new none clk w = w
when_new (some f) clk w = with_delay f clk w

-- The cylinder is painted on a new frame; without a decoder, once.
unfoldable pub paint : Option Estimate → Option Shown → DesktopWindow → DesktopWindow
paint clk new w = if w.decoder_active then when_new new clk w else record w { painted = true }

unfoldable pub paint_all :
    Option Estimate → (ℕ → Option Shown) → List DesktopWindow → List DesktopWindow
unfolding paint
paint_all clk new [] = []
paint_all clk new (w ∷ ws) = paint clk (new w.stream_id) w ∷ paint_all clk new ws

abbrev pub clock_of : Option NetSession → Option Estimate
clock_of none = none
clock_of (some net) = net.session.clock_estimate

-- The windows' part of `render_frame`, where the session runs and the frame is to be rendered.
unfoldable pub render_windows :
    (session_running should_render : Bool) → (ℕ → Option Shown) → XrApp → XrApp
unfolding paint_all
render_windows running should_render new s =
    if not running || not should_render
    then s
    else record s { windows = paint_all (clock_of s.net_session) new s.windows }
