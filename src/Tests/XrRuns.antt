-- ===== src/Tests/XrRuns.antt =====
-- The theorems on quest/src/xr_app.cpp at concrete inputs: two displays beside the primary one.
use loom_client.Common.{ℕ, ◌≡◌, refl, true, false, some, [], ◌∷◌, All}
use loom_client.Session.Config.{SessionConfig, StreamConfig}
use loom_client.Session.Ops.{new_session}
use loom_client.VideoReceiver.{new_receiver}
use loom_client.NetSession.{NetSession, new_net_session, build_extra_receivers, stream_ids}
use loom_client.XrApp.{DesktopWindow, Makes, start_decoder}
use loom_client.XrApp.Served.{MakesAll, IsActive, window_ids, start_decoder-served}
use loom_client.Tests.SessionRuns.{quest}

abbrev pub willing : Makes
willing = record {
  levels = λ id. true;
  single = λ id. true;
  surface = λ id. true;
  decoder = λ id. true;
}

willing-MakesAll : MakesAll willing
willing-MakesAll = record { swapchain = λ id. refl; surface = λ id. refl; decoder = λ id. refl }

abbrev display : ℕ → StreamConfig
display id = record { stream_id = id; width = 1280; height = 0; refresh = 60; bitrate_kbps = 9000 }

abbrev three_displays : SessionConfig
three_displays = record {
  generation = 1;
  codec = 1;
  width = 2560;
  height = 1440;
  refresh = 72;
  audio = 0;
  bitrate_kbps = 20000;
  extra_streams = display 2 ∷ display 3 ∷ [];
}

abbrev multi : NetSession
multi = record (new_net_session quest) {
  session = record (new_session quest) { active_features = 2 };
}

abbrev primary : DesktopWindow
primary = record {
  stream_id = 0;
  width = 2560;
  height = 1440;
  mip_count = 12;
  painted = true;
  decoder_active = false;
  e2e_us = 0;
  have_e2e = false;
}

start_decoder-served_example :
    let net = build_extra_receivers (record multi {
      extra_receivers_built = false;
      receivers = (0, new_receiver true 0) ∷ [];
      session = record multi.session { config = some three_displays };
    }) in
    let ws = start_decoder willing net (record primary { stream_id = 0 } ∷ []) in
    (window_ids ws ≡ stream_ids net.receivers) × All IsActive ws
start_decoder-served_example =
    start_decoder-served willing willing-MakesAll multi (new_receiver true 0) three_displays primary
      refl
