-- ===== src/Tests/FrameRuns.antt =====
-- The theorem on the loop of the Quest client at a concrete input.
use loom_client.Common.{ℕ, ℤ, pos, ◌≡◌, refl, true, false, Option, none, some, List, [], ◌∷◌}
use loom_client.Text.{codes}
use loom_client.XrApp
use loom_client.Overlay.Layer.{new_overlay}
use loom_client.Overlay.Layer
use loom_client.XrApp.Events.{
  connect_from_config, parse_line, trim_line, split_host, Shell, ready, state_changed, resume,
  volume_up,
}
use loom_client.XrApp.Setup.{
  SetupAnswers, Round, Client, new_app, primary_window, create, ExtensionNames, instance_extensions,
}
use loom_client.XrApp.Loop.{new_client}
use loom_client.Tests.XrRuns.{willing}

abbrev shell : Shell
shell = record {
  session_running = false;
  exit_requested = false;
  resumed = false;
  destroy_requested = false;
  overlay_visible = false;
  layer_settings_supported = true;
  sharpening_on = false;
}

abbrev setup : SetupAnswers
setup = record {
  egl = true;
  instance_made = true;
  session = true;
  swapchains = true;
  makes = willing;
  grid = true;
  blit_program = true;
  oes_program = true;
  overlay = true;
  line = none;
  started = false;
}

abbrev no_port : List ℕ → Option ℤ
no_port text = none

-- A first round with a frame in which an eye gets no image, and one with the overlay.
abbrev first_rounds : List Round
first_rounds =
    record {
      commands = resume ∷ [];
      inputs = volume_up ∷ [];
      events = state_changed (ready true) ∷ [];
      pumped = record {
        transport_events = [];
        now_us = pos 1;
        makes = willing;
        decode_us = λ id. 0;
      };
      frame = record {
        waited = true;
        begun = true;
        should_render = true;
        poses_valid = true;
        eyes = some 1 ∷ none ∷ [];
        image = λ id. some 2;
        new = λ id. none;
        latest_ms = 0;
        overlay_image = some 0;
      };
    }
    ∷ []

-- What the set-up leaves: the primary window, the overlay, and no connection.
abbrev set_up : Client
set_up = record (new_client shell) {
  app = record new_app { windows = primary_window 12 ∷ [] };
  overlay = (Layer.create true new_overlay).1;
}

-- A line whose port is no number ends the program.
no_set_up : create no_port (record setup { line = some (codes "pc:") }) (new_client shell) ≡ none
unfolding create XrApp.create_swapchain connect_from_config parse_line trim_line split_host
no_set_up = refl

-- The optional extension is asked for only where the runtime has it.
abbrev names : ExtensionNames
names = record { required = codes "gles" ∷ codes "cylinder" ∷ []; layer_settings = codes "fb" }

without_settings :
    instance_extensions names (some (codes "gles" ∷ codes "cylinder" ∷ []))
    ≡ (false, names.required)
unfolding instance_extensions
without_settings = refl
