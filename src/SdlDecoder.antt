-- ===== src/SdlDecoder.antt =====
-- sdl/src/decoder.hpp, sdl/src/decoder.cpp: the HEVC decoder of the SDL client. What libavcodec answers
-- is an argument: which of the objects it makes, and the picture of a unit. A plane of a picture is the
-- list of the bytes from its first row on; none is a read or a write outside of a buffer, or a call
-- through a null pointer.
pub mod Planes
use loom_client.Handles.{HandleCall, take_handle, give_handle, use_handle}
use loom_client.Common.{
  ◌++◌, ℕ, zero, suc, ◌+◌, ◌*◌, ◌/◌, leb, Bool, true, false, not, ◌&&◌, Option, none, some, List,
  [], ◌∷◌, length, take, drop, splice, resize, if◌then◌else◌,
}

-- A picture of libavcodec, its planes with the lengths of their rows in memory.
pub record AvFrame : Type 0 where
  pub is_yuv420p : Bool
  pub width : ℕ
  pub height : ℕ
  pub plane_y : List ℕ
  pub plane_u : List ℕ
  pub plane_v : List ℕ
  pub linesize_y : ℕ
  pub linesize_u : ℕ
  pub linesize_v : ℕ

pub record DecodedFrame : Type 0 where
  pub width : ℕ
  pub height : ℕ
  pub y : List ℕ
  pub u : List ℕ
  pub v : List ℕ
  pub capture_ts : ℕ
  pub decode_us : ℕ

pub record HevcDecoder : Type 0 where
  pub has_ctx : Bool
  pub has_pkt : Bool
  pub has_frame : Bool
  pub calls : List HandleCall

-- The numbers of the handles.
abbrev pub ctx_handle : ℕ
ctx_handle = 0

abbrev pub pkt_handle : ℕ
pkt_handle = 1

abbrev pub frame_handle : ℕ
frame_handle = 2

-- What the constructor is given.
pub record Makes : Type 0 where
  pub codec : Bool
  pub context : Bool
  pub opens : Bool
  pub packet : Bool
  pub frame : Bool

abbrev pub no_decoder : List HandleCall → HevcDecoder
no_decoder calls = record { has_ctx = false; has_pkt = false; has_frame = false; calls = calls }

-- What is asked behind the allocation of the context.
abbrev pub decoder_with : (opens : Bool) → Makes → HevcDecoder
decoder_with false a =
    no_decoder (take_handle ctx_handle ∷ use_handle ctx_handle ∷ give_handle ctx_handle ∷ [])
decoder_with true a = record {
  has_ctx = true;
  has_pkt = a.packet;
  has_frame = a.frame;
  calls =
      take_handle ctx_handle ∷ use_handle ctx_handle ∷ []
      ++ (if a.packet then take_handle pkt_handle ∷ [] else [])
      ++ (if a.frame then take_handle frame_handle ∷ [] else []);
}

unfoldable pub new_decoder : Makes → HevcDecoder
new_decoder a = if a.codec && a.context then decoder_with a.opens a else no_decoder []

-- The destructor.
unfoldable pub destroy : HevcDecoder → HevcDecoder
destroy s = no_decoder (
    s.calls
    ++ ((if s.has_frame then give_handle frame_handle ∷ [] else [])
        ++ (if s.has_pkt then give_handle pkt_handle ∷ [] else [])
        ++ (if s.has_ctx then give_handle ctx_handle ∷ [] else [])))

unfoldable pub ok : HevcDecoder → Bool
ok s = s.has_ctx

-- `std::copy_n(data + from, n, out.begin() + to)`
unfoldable pub copy_n : (from n to : ℕ) → List ℕ → List ℕ → Option (List ℕ)
copy_n from n to plane out =
    if leb (from + n) (length plane) && leb (to + n) (length out)
    then some (splice to (take n (drop from plane)) out)
    else none

abbrev pub and_copy : Option (List ℕ) → (List ℕ → Option (List ℕ)) → Option (List ℕ)
and_copy none f = none
and_copy (some out) f = f out

-- The loop over the rows of a plane, from `row` on.
unfoldable pub copy_rows : (rows row width linesize : ℕ) → List ℕ → List ℕ → Option (List ℕ)
unfolding copy_n
copy_rows zero row width linesize plane out = some out
copy_rows (suc rows) row width linesize plane out =
    and_copy (copy_n (row * linesize) width (row * width) plane out)
      (copy_rows rows (suc row) width linesize plane)

-- A plane, resized and filled.
unfoldable pub copy_plane : (width height linesize : ℕ) → List ℕ → List ℕ → Option (List ℕ)
unfolding copy_rows
copy_plane width height linesize plane out =
    copy_rows height 0 width linesize plane (resize (width * height) out)

abbrev pub planes_in :
    AvFrame
    → DecodedFrame
    → Option (List ℕ)
    → Option (List ℕ)
    → Option (List ℕ)
    → Option DecodedFrame
planes_in f out (some y) (some u) (some v) =
    some (record out { width = f.width; height = f.height; y = y; u = u; v = v })
planes_in f out _ _ _ = none

-- The planes of a 4:2:0 picture without the padding of their rows.
unfoldable pub copy_frame : AvFrame → DecodedFrame → Option DecodedFrame
unfolding copy_plane
copy_frame f out =
    planes_in f out (copy_plane f.width f.height f.linesize_y f.plane_y out.y)
      (copy_plane (f.width / 2) (f.height / 2) f.linesize_u f.plane_u out.u)
      (copy_plane (f.width / 2) (f.height / 2) f.linesize_v f.plane_v out.v)

abbrev pub produced : Option DecodedFrame → Option (Bool × DecodedFrame)
produced none = none
produced (some out) = some (true, out)

abbrev pub receive : Option AvFrame → (decode_us : ℕ) → DecodedFrame → Option (Bool × DecodedFrame)
receive none decode_us out = some (false, out)
receive (some f) decode_us out =
    let timed = record out { decode_us = decode_us } in
    if not f.is_yuv420p then some (false, timed) else produced (copy_frame f timed)

-- `sent`: the packet was taken; `received`: the frame behind it.
unfoldable pub decode :
    (sent : Bool)
    → (received : Option AvFrame) → (decode_us : ℕ) → HevcDecoder
    → DecodedFrame
    → Option (Bool × DecodedFrame)
unfolding copy_frame
decode sent received decode_us s out =
    if not s.has_ctx
    then some (false, out)
    else if not s.has_pkt
    then none
    else if not sent
    then some (false, out)
    else if not s.has_frame
    then none
    else receive received decode_us out
