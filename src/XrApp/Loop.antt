-- ===== src/XrApp/Loop.antt =====
-- quest/src/xr_app.cpp, quest/src/main.cpp: the app from its set-up through the rounds of its loop.
use loom_client.Common.{Bool, true, false, Option, none, some, [], ◌≡◌}
use loom_client.Overlay.Layer.{new_overlay}
use loom_client.XrApp.{XrApp}
use loom_client.XrApp.Events.{Shell}
use loom_client.XrApp.Overlaid.{IsSound}
use loom_client.XrApp.Framed.{between, phase_after}
use loom_client.XrApp.Setup.{Client, new_app}

-- The overlay is sound, and the app stands between two frames.
pub record IsProper (c : Client) : Type 0 where
  pub overlay_is : IsSound c.overlay
  pub between_frames : phase_after (some between) c.calls ≡ some between

-- A run that ends, in a proper state.
pub record RunsProperly (r : Option Client) : Type 0 where
  pub after : Client
  pub ends : r ≡ some after
  pub proper : IsProper after

-- A client before its set-up.
abbrev pub new_client : Shell → Client
new_client shell = record { shell = shell; app = new_app; overlay = new_overlay; calls = [] }

-- Where the set-up succeeds, the client is proper.
abbrev SetUpProper : Option (Bool × Client) → Type 0
SetUpProper none = Unit {0}
SetUpProper (some (false, c)) = Unit {0}
SetUpProper (some (true, c)) = IsProper c
