-- ===== src/XrApp/Lines.antt =====
-- quest/src/xr_app.cpp: the text of the overlay, and the overlay's part of a frame. The conversions of
-- snprintf are a parameter.
use loom_client.Common.{
  ℕ, ◌/◌, ◌==◌, Bool, Option, none, some, List, [], ◌∷◌, ◌++◌, length, take, if◌then◌else◌,
}
use loom_client.ClockSync.{Estimate}
use loom_client.Text.{codes}
use loom_client.VideoReceiver.{Counters, add_u64}
use loom_client.Metrics.{Doubles, hundred}
use loom_client.NetSession.{NetSession}
use loom_client.SdlClient.{rtt_of}
use loom_client.Overlay.Layer.{Overlay, build_layer, toggle}
use loom_client.XrApp.{DesktopWindow, XrApp, primary_counters}

-- `%llu` and `%zu`, `%.1f`, `%.2f`.
pub record Prints : Type 0 where
  pub unsigned : ℕ → List ℕ
  pub one_digit : ℕ → List ℕ
  pub two_digits : ℕ → List ℕ

-- What `snprintf(buf, sizeof buf, ...)` leaves in the 64 bytes before the zero.
abbrev pub in_buf : List ℕ → List ℕ
in_buf text = take 63 text

abbrev pub head_of : List DesktopWindow → Option DesktopWindow
head_of [] = none
head_of (w ∷ ws) = some w

abbrev pub clock_of_app : Option NetSession → Option Estimate
clock_of_app none = none
clock_of_app (some net) = net.session.clock_estimate

abbrev pub no_delay : List ℕ
no_delay = codes "e2e --  rtt --"

-- What happens to the overlay: the key, or a frame, with the decode time, the app and the answer of
-- xrAcquireSwapchainImage.
pub data Moment : Type 0 where
  key_up : Moment
  frame : (latest_ms : ℕ) → XrApp → (acquired : Option ℕ) → Moment

abbrev pub overlay_after : Option (Bool × Overlay) → Option Overlay
overlay_after none = none
overlay_after (some (shown, s)) = some s

abbrev pub then_overlay : Option Overlay → (Overlay → Option Overlay) → Option Overlay
then_overlay none f = none
then_overlay (some s) f = f s

module _ (fl : Doubles) (pr : Prints) where
  abbrev pub delay_text : ℕ → ℕ → List ℕ
  delay_text e2e_us rtt_us =
      codes "e2e "
      ++ pr.unsigned (e2e_us / 1000)
      ++ codes " ms  rtt "
      ++ pr.unsigned (rtt_us / 1000)
      ++ codes " ms"

  abbrev pub delay_line : Option Estimate → Option DesktopWindow → List ℕ
  delay_line none w = no_delay
  delay_line (some clk) none = no_delay
  delay_line (some clk) (some w) =
      if w.have_e2e then delay_text w.e2e_us (rtt_of (some clk)) else no_delay

  abbrev pub loss_of : Counters → ℕ
  loss_of c =
      let total = add_u64 c.frames_received c.frames_dropped in
      if total == 0
      then 0
      else fl.div (fl.mul hundred (fl.of_u64 c.frames_dropped)) (fl.of_u64 total)

  abbrev pub loss_pct : Option NetSession → ℕ
  loss_pct none = 0
  loss_pct (some net) = loss_of (primary_counters net.receivers)

  abbrev pub decode_time : (latest_ms : ℕ) → Option DesktopWindow → ℕ
  decode_time latest_ms none = 0
  decode_time latest_ms (some w) = if w.decoder_active then latest_ms else 0

  abbrev pub decode_text : ℕ → ℕ → ℕ → List ℕ
  decode_text decode_ms loss windows =
      codes "decode "
      ++ pr.one_digit decode_ms
      ++ codes " ms  loss "
      ++ pr.two_digits loss
      ++ codes "%  "
      ++ pr.unsigned windows
      ++ codes " win"

  abbrev pub delay_of : XrApp → List ℕ
  delay_of s = delay_line (clock_of_app s.net_session) (head_of s.windows)

  abbrev pub decode_of : ℕ → XrApp → List ℕ
  decode_of latest_ms s =
      decode_text (decode_time latest_ms (head_of s.windows)) (loss_pct s.net_session)
        (length s.windows)

  abbrev pub bitrate_of : XrApp → List ℕ
  bitrate_of s = codes "bitrate " ++ pr.unsigned s.bitrate_kbps ++ codes " kbps"

  -- `latest_ms`: the decode time in the primary decoder's metrics.
  unfoldable pub overlay_lines : (latest_ms : ℕ) → XrApp → List (List ℕ)
  overlay_lines latest_ms s =
      in_buf (delay_of s) ∷ in_buf (decode_of latest_ms s) ∷ in_buf (bitrate_of s) ∷ []

  -- The overlay in `render_frame`.
  abbrev pub render_overlay : Moment → Overlay → Option Overlay
  render_overlay key_up s = some (toggle s)
  render_overlay (frame latest_ms app acquired) s =
      if s.visible
      then overlay_after (build_layer acquired (overlay_lines latest_ms app) s)
      else some s

  unfoldable pub run_overlay : List Moment → Overlay → Option Overlay
  unfolding overlay_lines build_layer toggle
  run_overlay [] s = some s
  run_overlay (x ∷ xs) s = then_overlay (render_overlay x s) (run_overlay xs)
