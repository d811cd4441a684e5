-- ===== src/XrApp/Framed.antt =====
-- quest/src/xr_app.cpp: the frames keep to the order that OpenXR asks for.
use loom_client.Common.{
  ℕ, suc, ◌==◌, ==_refl, ltb, Bool, true, false, not, ◌&&◌, Option, none, some, List, [], ◌∷◌, ◌++◌,
  if◌then◌else◌, ◌≡◌, refl, sym, subst, ◌∙◌, ap,
}
use loom_client.Metrics.{Doubles}
use loom_client.Overlay.Layer.{Overlay}
use loom_client.XrApp.{DesktopWindow, XrApp}
use loom_client.XrApp.Events.{Shell, Shown, paint_all, clock_of}
use loom_client.XrApp.Lines.{Prints, overlay_after}
use loom_client.XrApp.Overlaid.{IsSound, RunsSoundly, overlay_in_frame}
use loom_client.XrApp.Frame.{
  Swapchain, eye_swapchain, window_swapchain, XrCall, wait_frame, begin_frame, end_frame,
  acquire_image, wait_image, release_image, draw_image, Answers, fill_image, blit_new,
  blit_into_cylinder, Layer, quad, window_calls, windows_calls, eyes_calls, Rendered, with_quad,
  render_frame,
}

abbrev same_swapchain : Swapchain → Swapchain → Bool
same_swapchain (eye_swapchain i) (eye_swapchain j) = i == j
same_swapchain (window_swapchain i) (window_swapchain j) = i == j
same_swapchain _ _ = false

-- Where a frame stands: between two frames, waited for, begun; and in one that is begun, with an
-- image acquired, or ready to be drawn.
pub data Phase : Type 0 where
  between waited begun : Phase
  acquired ready : Swapchain → Phase

-- One call, where it is allowed.
abbrev pub next : Phase → XrCall → Option Phase
next between (wait_frame ok) = some (if ok then waited else between)
next waited (begin_frame ok) = some (if ok then begun else between)
next begun (end_frame layers) = some between
next begun (acquire_image ok c) = some (if ok then acquired c else begun)
next (acquired c) (wait_image d) = if same_swapchain c d then some (ready c) else none
next (ready c) (draw_image index mipmaps d) = if same_swapchain c d then some (ready c) else none
next (ready c) (release_image d) = if same_swapchain c d then some begun else none
next _ _ = none

abbrev pub phase_after : Option Phase → List XrCall → Option Phase
phase_after none calls = none
phase_after (some p) [] = some p
phase_after (some p) (c ∷ cs) = phase_after (next p c) cs

pub phase_after-append :
    (o : Option Phase) (a b : List XrCall)
    → phase_after o (a ++ b) ≡ phase_after (phase_after o a) b
phase_after-append none a b = refl
phase_after-append (some p) [] b = refl
phase_after-append (some p) (c ∷ cs) b = phase_after-append (next p c) cs b

same_swapchain_refl : (c : Swapchain) → same_swapchain c c ≡ true
same_swapchain_refl (eye_swapchain i) = ==_refl i
same_swapchain_refl (window_swapchain i) = ==_refl i

allowed :
    (c : Swapchain) (p : Phase) (cs : List XrCall)
    → phase_after (if same_swapchain c c then some p else none) cs ≡ phase_after (some p) cs
allowed c p cs = ap (λ b. phase_after (if b then some p else none) cs) (same_swapchain_refl c)

-- An image is acquired, drawn and released.
fill_image-begun :
    (c : Swapchain) (mipmaps : Bool) (image : Option ℕ)
    → phase_after (some begun) (fill_image c mipmaps image) ≡ some begun
fill_image-begun c mipmaps none = refl
fill_image-begun c mipmaps (some index) =
    allowed c (ready c) (draw_image index mipmaps c ∷ release_image c ∷ [])
    ∙ allowed c (ready c) (release_image c ∷ [])
    ∙ allowed c begun []

if-begun :
    (b : Bool) (x y : List XrCall)
    → phase_after (some begun) x ≡ some begun
    → phase_after (some begun) y ≡ some begun
    → phase_after (some begun) (if b then x else y) ≡ some begun
if-begun true x y hx hy = hx
if-begun false x y hx hy = hy

then-begun :
    (x y : List XrCall)
    → phase_after (some begun) x ≡ some begun
    → phase_after (some begun) y ≡ some begun
    → phase_after (some begun) (x ++ y) ≡ some begun
then-begun x y hx hy = phase_after-append (some begun) x y ∙ ap (λ o. phase_after o y) hx ∙ hy

window_calls-begun :
    (a : Answers) (w : DesktopWindow) → phase_after (some begun) (window_calls a w) ≡ some begun
window_calls-begun a w =
    let blit =
      fill_image-begun (window_swapchain w.stream_id) (ltb 1 w.mip_count) (a.image w.stream_id) in
    if-begun w.decoder_active _ _ (go (a.new w.stream_id) blit)
      (if-begun (not w.painted) _ _ blit refl)
  where
    go :
        (new : Option Shown)
        → phase_after (some begun) (blit_into_cylinder (a.image w.stream_id) w) ≡ some begun
        → phase_after (some begun) (blit_new new (a.image w.stream_id) w) ≡ some begun
    go none blit = refl
    go (some f) blit = blit

windows_calls-begun :
    (a : Answers) (ws : List DesktopWindow)
    → phase_after (some begun) (windows_calls a ws) ≡ some begun
unfolding windows_calls
windows_calls-begun a [] = refl
windows_calls-begun a (w ∷ ws) =
    then-begun (window_calls a w) (windows_calls a ws) (window_calls-begun a w)
      (windows_calls-begun a ws)

eyes_calls-begun :
    (i : ℕ) (images : List (Option ℕ)) → phase_after (some begun) (eyes_calls i images) ≡ some begun
unfolding eyes_calls
eyes_calls-begun i [] = refl
eyes_calls-begun i (image ∷ images) =
    then-begun (fill_image (eye_swapchain i) false image) (eyes_calls (suc i) images)
      (fill_image-begun (eye_swapchain i) false image) (eyes_calls-begun (suc i) images)

-- A frame ends with a sound overlay, between two frames.
pub record EndsProperly (r : Option Rendered) : Type 0 where
  pub after : Rendered
  pub ends : r ≡ some after
  pub between_frames : phase_after (some between) after.calls ≡ some between
  pub sound : IsSound after.overlay

-- The calls of a frame, from the wait to the layers.
frame_calls :
    (calls : List XrCall) (layers : List Layer)
    → phase_after (some begun) calls ≡ some begun
    → phase_after
        (some between)
        (wait_frame true ∷ begin_frame true ∷ [] ++ calls ++ end_frame layers ∷ [])
      ≡ some between
frame_calls calls layers h =
    phase_after-append (some begun) calls (end_frame layers ∷ [])
    ∙ ap (λ o. phase_after o (end_frame layers ∷ [])) h

if-Ends :
    (b : Bool) (x y : Option Rendered)
    → EndsProperly x
    → EndsProperly y
    → EndsProperly (if b then x else y)
if-Ends true x y hx hy = hx
if-Ends false x y hx hy = hy

abbrev Ends : Option Overlay → Type 0
Ends none = ⊥
Ends (some o) = Unit {0}

abbrev value_or : Overlay → Option Overlay → Overlay
value_or d none = d
value_or d (some o) = o

with_quad-Ends :
    (r : Option (Bool × Overlay)) (calls : List XrCall) (layers : List Layer) (s : XrApp)
    → RunsSoundly (overlay_after r)
    → phase_after (some begun) calls ≡ some begun
    → EndsProperly (with_quad r (wait_frame true ∷ begin_frame true ∷ [] ++ calls) layers s)
with_quad-Ends none calls layers s runs h = absurd (subst Ends (sym runs.ends) tt)
with_quad-Ends (some (shown, o)) calls layers s runs h = record {
  after = record {
    calls =
        wait_frame true ∷ begin_frame true ∷ []
        ++ calls
        ++ end_frame (if shown then layers ++ quad ∷ [] else layers) ∷ [];
    app = s;
    overlay = o;
  };
  ends = refl;
  between_frames = frame_calls calls (if shown then layers ++ quad ∷ [] else layers) h;
  sound = subst IsSound (sym (ap (value_or o) runs.ends)) runs.sound;
}

module _ (fl : Doubles) (pr : Prints) (shell : Shell) where
  still :
      (s : XrApp) (o : Overlay) (calls : List XrCall)
      → phase_after (some between) calls ≡ some between
      → IsSound o
      → EndsProperly (some (record { calls = calls; app = s; overlay = o }))
  still s o calls h sound = record {
    after = record { calls = calls; app = s; overlay = o };
    ends = refl;
    between_frames = h;
    sound = sound;
  }

  -- A frame is rendered with a sound overlay, whatever is answered: it comes to an end, a frame that is
  -- begun is ended once, with its layers, every image that is acquired in it is awaited, drawn and
  -- released before the next and before the end, no other is, and the overlay is sound again.
  pub render_frame-EndsProperly :
      (a : Answers) (s : XrApp) (o : Overlay)
      → IsSound o
      → EndsProperly (render_frame fl pr a shell s o)
  unfolding render_frame
  render_frame-EndsProperly a s o sound =
      let painted = record s { windows = paint_all (clock_of s.net_session) a.new s.windows } in
      if-Ends (not shell.session_running) _ _ (still s o [] refl sound) (
        if-Ends (not a.waited) _ _ (still s o _ refl sound) (
          if-Ends (not a.begun) _ _ (still s o _ refl sound) (
            if-Ends (a.should_render && a.poses_valid) _ _
              (with_quad-Ends _ (windows_calls a s.windows ++ eyes_calls 0 a.eyes) _ painted
                (overlay_in_frame fl pr a.latest_ms painted a.overlay_image o sound)
                (then-begun (windows_calls a s.windows) (eyes_calls 0 a.eyes)
                  (windows_calls-begun a s.windows) (eyes_calls-begun 0 a.eyes)))
              (still s o _ refl sound))))
