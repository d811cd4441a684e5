-- ===== src/XrApp/Overlaid.antt =====
-- quest/src/xr_app.cpp, quest/src/overlay.cpp: the overlay over the frames of the app.
use loom_client.Common.{
  length-resize, ℕ, ◌*◌, ◌≤◌, ◌==◌, ==_iff, Bool, true, false, Option, none, some, List, [], ◌∷◌,
  ◌++◌, length, take, length-take, if◌then◌else◌, All, ◌≡◌, refl, sym, ◌∙◌, ap, arith,
}
use loom_client.Metrics.{Doubles}
use loom_client.Overlay.{rasterize}
use loom_client.Overlay.Picture.{length-clear}
use loom_client.Overlay.Bounds.{rasterize-Stays}
use loom_client.Overlay.Layer.{
  Call, create_swapchain, acquire_image, wait_image, release_image, upload, Overlay, create, show,
  show_drawn, build_layer, toggle,
}
use loom_client.XrApp.{XrApp}
use loom_client.XrApp.Lines.{Prints, delay_of, decode_of, bitrate_of, overlay_lines, overlay_after}

-- The image of the swapchain: with the runtime, acquired, or ready to be written.
pub data Image : Type 0 where
  released acquired ready : Image

-- One call, where the protocol of OpenXR allows it; an upload reads as many bytes as its size asks for.
abbrev pub next : Image → Call → Option Image
next released create_swapchain = some released
next released (acquire_image false) = some released
next released (acquire_image true) = some acquired
next acquired wait_image = some ready
next ready (upload index width height pixels) =
    if length pixels == width * height * 4 then some ready else none
next ready release_image = some released
next _ _ = none

abbrev pub image_after : Option Image → List Call → Option Image
image_after none calls = none
image_after (some i) [] = some i
image_after (some i) (c ∷ cs) = image_after (next i c) cs

image_after-append :
    (o : Option Image) (a b : List Call) → image_after o (a ++ b) ≡ image_after (image_after o a) b
image_after-append none a b = refl
image_after-append (some i) [] b = refl
image_after-append (some i) (c ∷ cs) b = image_after-append (next i c) cs b

-- The buffer has the size of the swapchain's images, and every image acquired was awaited, filled from
-- a buffer that is long enough, and released.
pub record IsSound (s : Overlay) : Type 0 where
  pub width_is : s.width ≡ 768
  pub height_is : s.height ≡ 192
  pub size_is : length s.pixels ≡ 589_824
  pub protocol : image_after (some released) s.calls ≡ some released

-- A run of the overlay that ends, in a sound state.
pub record RunsSoundly (r : Option Overlay) : Type 0 where
  pub after : Overlay
  pub ends : r ≡ some after
  pub sound : IsSound after

after_calls :
    (calls more : List Call)
    → image_after (some released) calls ≡ some released
    → image_after (some released) (calls ++ more) ≡ image_after (some released) more
after_calls calls more h =
    image_after-append (some released) calls more ∙ ap (λ o. image_after o more) h

-- The calls of a frame whose image was given.
shown_lem :
    (index width height : ℕ) (pixels : List ℕ)
    → (length pixels == width * height * 4) ≡ true
    → image_after
        (some released)
        (acquire_image true ∷ wait_image ∷ upload index width height pixels ∷ release_image ∷ [])
      ≡ some released
shown_lem index width height pixels h =
    ap (λ b. image_after (if b then some ready else none) (release_image ∷ [])) h

show-IsSound : (given : Option ℕ) (s : Overlay) → IsSound s → IsSound (show given s).1
show-IsSound none s h = record {
  width_is = h.width_is;
  height_is = h.height_is;
  size_is = h.size_is;
  protocol = after_calls s.calls (acquire_image false ∷ []) h.protocol;
}
show-IsSound (some index) s h =
    let fits : length s.pixels ≡ s.width * s.height * 4 =
      h.size_is ∙ sym (ap (λ w. w * s.height * 4) h.width_is ∙ ap (λ k. 768 * k * 4) h.height_is) in
    record {
      width_is = h.width_is;
      height_is = h.height_is;
      size_is = h.size_is;
      protocol =
          after_calls s.calls _ h.protocol
          ∙ shown_lem index s.width s.height s.pixels ((==_iff _ _).1 fits);
    }

build_layer-IsSound :
    (given : Option ℕ) (lines : List (List ℕ)) (s : Overlay)
    → length lines ≤ 5
    → All (λ l. length l ≤ 287) lines
    → IsSound s
    → RunsSoundly (overlay_after (build_layer given lines s))
unfolding build_layer
build_layer-IsSound given lines s few short h =
    let drawn = rasterize-Stays lines s.pixels h.size_is few short in
    let now : rasterize s.width s.height lines s.pixels ≡ some drawn.after =
      ap (λ w. rasterize w s.height lines s.pixels) h.width_is
      ∙ ap (λ k. rasterize 768 k lines s.pixels) h.height_is
      ∙ drawn.ends in
    record {
      after = (show given (record s { pixels = drawn.after })).1;
      ends = ap (λ r. overlay_after (show_drawn r given s)) now;
      sound =
          show-IsSound given (record s { pixels = drawn.after })
            (record {
              width_is = h.width_is;
              height_is = h.height_is;
              size_is = drawn.same_length ∙ length-clear s.pixels ∙ h.size_is;
              protocol = h.protocol;
            });
    }

pub create-IsSound :
    (created : Bool) (s : Overlay)
    → image_after (some released) s.calls ≡ some released
    → IsSound (create created s).1
unfolding create
create-IsSound created s h = record {
  width_is = refl;
  height_is = refl;
  size_is = length-resize 589_824 s.pixels;
  protocol = after_calls s.calls (create_swapchain ∷ []) h;
}

pub toggle-IsSound : (s : Overlay) → IsSound s → IsSound (toggle s)
unfolding toggle
toggle-IsSound s h = record {
  width_is = h.width_is;
  height_is = h.height_is;
  size_is = h.size_is;
  protocol = h.protocol;
}

module _ (fl : Doubles) (pr : Prints) where
  short : (text : List ℕ) → length (take 63 text) ≤ 287
  short text = omega (arith, length-take 63 text)

  overlay_lines-few : (latest_ms : ℕ) (app : XrApp) → length (overlay_lines fl pr latest_ms app) ≤ 5
  unfolding overlay_lines
  overlay_lines-few latest_ms app = omega arith

  overlay_lines-short :
      (latest_ms : ℕ) (app : XrApp) → All (λ l. length l ≤ 287) (overlay_lines fl pr latest_ms app)
  unfolding overlay_lines
  overlay_lines-short latest_ms app = (
    short (delay_of fl pr app),
    (short (decode_of fl pr latest_ms app), (short (bitrate_of fl pr app), tt)),
  )

  -- The overlay's part of a frame.
  pub overlay_in_frame :
      (latest_ms : ℕ) (app : XrApp) (given : Option ℕ) (s : Overlay)
      → IsSound s
      → RunsSoundly (
          overlay_after (
            if s.visible
            then build_layer given (overlay_lines fl pr latest_ms app) s
            else some (false, s)))
  overlay_in_frame latest_ms app given s h = go s.visible
    where
      go :
          (visible : Bool)
          → RunsSoundly (
              overlay_after (
                if visible
                then build_layer given (overlay_lines fl pr latest_ms app) s
                else some (false, s)))
      go true =
          build_layer-IsSound given (overlay_lines fl pr latest_ms app) s
            (overlay_lines-few latest_ms app) (overlay_lines-short latest_ms app) h
      go false = record { after = s; ends = refl; sound = h }
