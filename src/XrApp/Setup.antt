-- ===== src/XrApp/Setup.antt =====
-- quest/src/xr_app.cpp, quest/src/main.cpp: the set-up of the app, and the rounds of its loop. What EGL,
-- OpenXR and the file give is an argument.
use loom_client.Common.{
  ℕ, pos, ◌==◌, Bool, true, false, not, ◌&&◌, ◌||◌, Option, none, some, List, [], ◌∷◌, ◌++◌,
  if◌then◌else◌, ℤ,
}
use loom_client.Metrics.{Doubles}
use loom_client.Overlay.Layer.{Overlay, new_overlay, toggle}
use loom_client.Overlay.Layer
use loom_client.XrApp.{
  DesktopWindow, XrApp, Makes, create_swapchain, cylinder_width, cylinder_height, pump_network,
}
use loom_client.XrApp
use loom_client.XrApp.Events.{
  Shell, XrEvent, AppCmd, Input, volume_up, connect_from_config, poll_events, on_app_cmd, on_input,
}
use loom_client.XrApp.Frame.{Rendered, XrCall, render_frame}
use loom_client.XrApp.Frame
use loom_client.XrApp.Lines.{Prints}

-- `std::strcmp(a, b) == 0`
unfoldable pub same_text : List ℕ → List ℕ → Bool
same_text [] [] = true
same_text (a ∷ rest) (b ∷ more) = (a == b) && same_text rest more
same_text _ _ = false

unfoldable pub is_named : List ℕ → List (List ℕ) → Bool
unfolding same_text
is_named name [] = false
is_named name (p ∷ ps) = if same_text p name then true else is_named name ps

-- `listed`: the names that the runtime gives, if both calls succeed.
unfoldable pub instance_extension_supported : List ℕ → (listed : Option (List (List ℕ))) → Bool
unfolding is_named
instance_extension_supported name none = false
instance_extension_supported name (some names) = is_named name names

-- The names of the extensions, from the headers of OpenXR.
pub record ExtensionNames : Type 0 where
  pub required : List (List ℕ)
  pub layer_settings : List ℕ

-- What `create_instance` enables, and whether the layer settings are among it.
unfoldable pub instance_extensions :
    ExtensionNames → (listed : Option (List (List ℕ))) → Bool × List (List ℕ)
unfolding instance_extension_supported
instance_extensions names listed =
    let supported = instance_extension_supported names.layer_settings listed in
    (supported, if supported then names.required ++ names.layer_settings ∷ [] else names.required)

-- What `create` is answered.
pub record SetupAnswers : Type 0 where
  pub egl : Bool
  pub instance_made : Bool
  pub session : Bool
  pub swapchains : Bool
  pub makes : Makes
  pub grid : Bool
  pub blit_program : Bool
  pub oes_program : Bool
  pub overlay : Bool
  pub line : Option (List ℕ)
  pub started : Bool

-- The window of the primary stream, from the start.
abbrev pub primary_window : (levels : ℕ) → DesktopWindow
primary_window levels = record {
  stream_id = 0;
  width = cylinder_width;
  height = cylinder_height;
  mip_count = levels;
  painted = false;
  decoder_active = false;
  e2e_us = 0;
  have_e2e = false;
}

abbrev pub new_app : XrApp
new_app = record {
  windows = [];
  net_session = none;
  last_stats_us = pos 0;
  bitrate_kbps = 0;
  bitrate_base_bytes = 0;
  bitrate_base_us = pos 0;
}

-- The app with its overlay.
pub record Client : Type 0 where
  pub shell : Shell
  pub app : XrApp
  pub overlay : Overlay
  pub calls : List XrCall

-- The app that goes on from `connect_from_config`, if it does, is in the client.
abbrev pub connected_client : Option XrApp → Client → Option (Bool × Client)
connected_client none c = none
connected_client (some app) c = some (true, record c { app = app })

module _ (stoi : List ℕ → Option ℤ) where
  -- What follows the swapchain of the primary window.
  abbrev pub create_rest : SetupAnswers → Option ℕ → Client → Option (Bool × Client)
  create_rest a none c = some (false, c)
  create_rest a (some levels) c =
      let c1 = record c { app = record c.app { windows = primary_window levels ∷ [] } } in
      if not a.grid
      then some (false, c1)
      else if not (a.blit_program && a.oes_program)
      then some (false, c1)
      else connected_client (connect_from_config stoi a.line a.started c1.app)
          (record c1 { overlay = (Layer.create a.overlay c.overlay).1 })

  -- Whether `create` succeeds, and the client behind it; none where an exception ends the program.
  unfoldable pub create : SetupAnswers → Client → Option (Bool × Client)
  unfolding create_swapchain
  create a c =
      if not (a.egl && a.instance_made && a.session && a.swapchains)
      then some (false, c)
      else create_rest a (create_swapchain a.makes 0 cylinder_width cylinder_height) c

-- What a round of the loop is given: the Android events, those of OpenXR, and the answers to the pump
-- and to the frame.
pub record Round : Type 0 where
  pub commands : List AppCmd
  pub inputs : List Input
  pub events : List XrEvent
  pub pumped : XrApp.Answers
  pub frame : Frame.Answers

unfoldable pub take_commands : List AppCmd → Shell → Shell
unfolding on_app_cmd
take_commands [] s = s
take_commands (x ∷ xs) s = take_commands xs (on_app_cmd x s)

abbrev pub take_input : Input → Client → Client
take_input volume_up c = record c {
  shell = (on_input volume_up c.shell).1;
  overlay = toggle c.overlay;
}
take_input x c = record c { shell = (on_input x c.shell).1 }

unfoldable pub take_inputs : List Input → Client → Client
take_inputs [] c = c
take_inputs (x ∷ xs) c = take_inputs xs (take_input x c)

abbrev pub rendered_client : Option Rendered → Client → Option Client
rendered_client none c = none
rendered_client (some r) c =
    some (record c { app = r.app; overlay = r.overlay; calls = c.calls ++ r.calls })

module _ (fl : Doubles) (pr : Prints) where
  -- A round of the loop of `android_main`; none where a write leaves a buffer.
  abbrev pub round : Round → Client → Option Client
  round x c =
      let c1 = take_inputs x.inputs c in
      let shell = poll_events x.events (take_commands x.commands c1.shell) in
      let app = pump_network fl x.pumped c1.app in
      rendered_client (render_frame fl pr x.frame shell app c1.overlay)
        (record c1 { shell = shell; app = app })

  abbrev pub then_rounds : Option Client → (Client → Option Client) → Option Client
  then_rounds none f = none
  then_rounds (some c) f = f c

  -- The loop, as long as it goes on.
  unfoldable pub rounds : List Round → Client → Option Client
  unfolding render_frame take_inputs take_commands poll_events pump_network
  rounds [] c = some c
  rounds (x ∷ xs) c =
      if c.shell.destroy_requested || c.shell.exit_requested
      then some c
      else then_rounds (round x c) (rounds xs)
