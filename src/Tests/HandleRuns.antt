-- ===== src/Tests/HandleRuns.antt =====
-- The theorems on the SDL decoder and renderer and on the handles of the Quest client at concrete inputs.
use loom_client.Common.{
  ℕ, ◌*◌, ◌≤◌, ◌==◌, ◌≡◌, refl, arith, Bool, true, false, Option, none, some, List, [], ◌∷◌,
  if◌then◌else◌, length,
}
use loom_client.Handles.{nulls, replay}
use loom_client.SdlDecoder.{AvFrame, Makes, new_decoder, decode, ok}
use loom_client.SdlDecoder
use loom_client.SdlDecoder.Planes.{HoldsPicture, picture_of, decode-picture}
use loom_client.SdlRenderer.{new_renderer, destroy, Line}
use loom_client.SdlRenderer
use loom_client.SdlRenderer.Nulls.{failures, present_all}
use loom_client.SdlRenderer.Lifetime.{destroy-releases}
use loom_client.SurfaceTexture
use loom_client.SurfaceTexture.Lifetime.{destroy-create}
use loom_client.EglContext
use loom_client.EglContext.{Attrib, Bits, find_config}

-- Two by two pixels, rows of four bytes and of two.
abbrev small : AvFrame
small = record {
  is_yuv420p = true;
  width = 2;
  height = 2;
  plane_y = 11 ∷ 12 ∷ 0 ∷ 0 ∷ 21 ∷ 22 ∷ 0 ∷ 0 ∷ [];
  plane_u = 31 ∷ 0 ∷ [];
  plane_v = 41 ∷ 0 ∷ [];
  linesize_y = 4;
  linesize_u = 2;
  linesize_v = 2;
}

small-HoldsPicture : HoldsPicture small
small-HoldsPicture = record {
  wide_y = omega arith;
  wide_u = omega arith;
  wide_v = omega arith;
  rows_y = omega arith;
  rows_u = omega arith;
  rows_v = omega arith;
}

abbrev willing : Makes
willing = record { codec = true; context = true; opens = true; packet = true; frame = true }

abbrev blank : SdlDecoder.DecodedFrame
blank = record { width = 0; height = 0; y = []; u = []; v = []; capture_ts = 7; decode_us = 0 }

-- The padding of the rows is gone.
packed_rows : (picture_of small 5 blank).y ≡ 11 ∷ 12 ∷ 21 ∷ 22 ∷ []
packed_rows = refl

decode-picture_example :
    decode true (some small) 5 (new_decoder willing) blank ≡ some (true, picture_of small 5 blank)
unfolding new_decoder ok
decode-picture_example = decode-picture willing small 5 blank small-HoldsPicture refl refl refl refl

abbrev answers : SdlRenderer.Answers
answers = record {
  sdl_init = true;
  makes_window = true;
  accelerated = false;
  software = true;
  ttf_init = true;
  opens = λ path. length path == 4;
  env = some (1 ∷ 2 ∷ 3 ∷ 4 ∷ []);
}

-- Two sizes, a line that SDL_ttf does not render and one for which SDL makes no texture.
abbrev frames : List (SdlDecoder.DecodedFrame × Bool × List (Option Line))
frames =
    (
      record blank { width = 2; height = 2 },
      true,
      none ∷ some (record { w = 50; h = 16; as_texture = false }) ∷ [],
    )
    ∷ (record blank { width = 4; height = 2 }, true, [])
    ∷ []

destroy-releases_example :
    let calls = (destroy (present_all frames (new_renderer answers))).calls in
    (replay calls (some []) ≡ some []) × (nulls calls ≤ 2 * failures frames)
destroy-releases_example = destroy-releases answers frames

abbrev refused : SurfaceTexture.Answers
refused = record {
  attached = true;
  constructed = false;
  referenced = false;
  wrapped = false;
  acquired = false;
}

destroy-create_example :
    replay
      (SurfaceTexture.destroy true
        (SurfaceTexture.create refused SurfaceTexture.new_surface_texture).1).calls
      (some [])
    ≡ some (SurfaceTexture.local_class ∷ [])
destroy-create_example = destroy-create refused

abbrev bits : Bits
bits = record { es3_bit = 0x40; window_bit = 4; pbuffer_bit = 1 }

-- The first configuration has four samples, the second none.
abbrev value_of : ℕ → Attrib → ℕ
value_of c Attrib.renderable_type = 0x44
value_of c Attrib.surface_type = 5
value_of c Attrib.depth_size = 0
value_of c Attrib.stencil_size = 0
value_of c Attrib.samples = if c == 1 then 4 else 0
value_of c _ = 8

-- The second is taken.
second : find_config bits value_of (1 ∷ 2 ∷ []) ≡ some 2
unfolding find_config EglContext.matches
second = refl
