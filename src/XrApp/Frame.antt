-- ===== src/XrApp/Frame.antt =====
-- quest/src/xr_app.cpp: a frame, from the wait to the layers that are submitted. What OpenXR and the
-- surfaces answer is an argument, and what OpenXR is asked is recorded; the calls of OpenGL ES are one
-- `draw_image` for an image.
use loom_client.Common.{
  ℕ, suc, ltb, Bool, true, false, not, ◌&&◌, Option, none, some, List, [], ◌∷◌, ◌++◌, if◌then◌else◌,
}
use loom_client.Metrics.{Doubles}
use loom_client.Overlay.Layer.{Overlay, build_layer}
use loom_client.XrApp.{DesktopWindow, XrApp}
use loom_client.XrApp.Events.{Shell, Shown, paint_all, clock_of}
use loom_client.XrApp.Lines.{Prints, overlay_lines}

-- The swapchain of an eye, by its index, or of a window, by its stream.
pub data Swapchain : Type 0 where
  eye_swapchain window_swapchain : ℕ → Swapchain

-- A layer of the frame; a cylinder with its settings, sharpened or not, if the runtime has them.
pub data Layer : Type 0 where
  projection quad : Layer
  cylinder : (stream_id : ℕ) → (settings : Option Bool) → Layer

pub data XrCall : Type 0 where
  wait_frame begin_frame : (success : Bool) → XrCall
  end_frame : List Layer → XrCall
  acquire_image : (given : Bool) → Swapchain → XrCall
  wait_image release_image : Swapchain → XrCall
  draw_image : (index : ℕ) → (mipmaps : Bool) → Swapchain → XrCall

-- What a frame is answered: `eyes` has the image of each view, `image` and `new` the image and the
-- new picture of a window.
pub record Answers : Type 0 where
  pub waited : Bool
  pub begun : Bool
  pub should_render : Bool
  pub poses_valid : Bool
  pub eyes : List (Option ℕ)
  pub image : ℕ → Option ℕ
  pub new : ℕ → Option Shown
  pub latest_ms : ℕ
  pub overlay_image : Option ℕ

-- The image that is acquired, if one is, is drawn and released.
abbrev pub fill_image : Swapchain → (mipmaps : Bool) → Option ℕ → List XrCall
fill_image c mipmaps none = acquire_image false c ∷ []
fill_image c mipmaps (some index) =
    acquire_image true c ∷ wait_image c ∷ draw_image index mipmaps c ∷ release_image c ∷ []

abbrev pub blit_into_cylinder : Option ℕ → DesktopWindow → List XrCall
blit_into_cylinder image w = fill_image (window_swapchain w.stream_id) (ltb 1 w.mip_count) image

abbrev pub blit_new : Option Shown → Option ℕ → DesktopWindow → List XrCall
blit_new none image w = []
blit_new (some f) image w = blit_into_cylinder image w

abbrev pub window_calls : Answers → DesktopWindow → List XrCall
window_calls a w =
    if w.decoder_active
    then blit_new (a.new w.stream_id) (a.image w.stream_id) w
    else if not w.painted
    then blit_into_cylinder (a.image w.stream_id) w
    else []

unfoldable pub windows_calls : Answers → List DesktopWindow → List XrCall
windows_calls a [] = []
windows_calls a (w ∷ ws) = window_calls a w ++ windows_calls a ws

-- `render_eye` for every view, from the index `i` on.
unfoldable pub eyes_calls : (i : ℕ) → List (Option ℕ) → List XrCall
eyes_calls i [] = []
eyes_calls i (image ∷ images) =
    fill_image (eye_swapchain i) false image ++ eyes_calls (suc i) images

abbrev pub settings_of : Shell → Option Bool
settings_of shell = if shell.layer_settings_supported then some shell.sharpening_on else none

unfoldable pub cylinders : Shell → List DesktopWindow → List Layer
cylinders shell [] = []
cylinders shell (w ∷ ws) = cylinder w.stream_id (settings_of shell) ∷ cylinders shell ws

-- What a frame leaves: the calls, the app and the overlay.
pub record Rendered : Type 0 where
  pub calls : List XrCall
  pub app : XrApp
  pub overlay : Overlay

abbrev pub with_quad : Option (Bool × Overlay) → List XrCall → List Layer → XrApp → Option Rendered
with_quad none calls layers s = none
with_quad (some (shown, o)) calls layers s = some (record {
  calls = calls ++ end_frame (if shown then layers ++ quad ∷ [] else layers) ∷ [];
  app = s;
  overlay = o;
})

module _ (fl : Doubles) (pr : Prints) where
  -- A frame that is to be rendered.
  abbrev pub render_layers : Answers → Shell → XrApp → Overlay → Option Rendered
  render_layers a shell s o =
      let painted = record s { windows = paint_all (clock_of s.net_session) a.new s.windows } in
      with_quad
        (if o.visible
          then build_layer a.overlay_image (overlay_lines fl pr a.latest_ms painted) o
          else some (false, o))
        (wait_frame true ∷ begin_frame true ∷ []
          ++ (windows_calls a s.windows ++ eyes_calls 0 a.eyes))
        (projection ∷ cylinders shell painted.windows) painted

  -- None where a write of the overlay leaves its buffer.
  unfoldable pub render_frame : Answers → Shell → XrApp → Overlay → Option Rendered
  unfolding paint_all build_layer overlay_lines windows_calls eyes_calls cylinders
  render_frame a shell s o =
      if not shell.session_running
      then some (record { calls = []; app = s; overlay = o })
      else if not a.waited
      then some (record { calls = wait_frame false ∷ []; app = s; overlay = o })
      else if not a.begun
      then some (record { calls = wait_frame true ∷ begin_frame false ∷ []; app = s; overlay = o })
      else if a.should_render && a.poses_valid
      then render_layers a shell s o
      else some (record {
        calls = wait_frame true ∷ begin_frame true ∷ end_frame [] ∷ [];
        app = s;
        overlay = o;
      })
