-- ===== src/SdlDecoder/Planes.antt =====
-- sdl/src/decoder.cpp: a decoded picture has the pixels of libavcodec's, its rows packed.
use native.Mathlib.Nat.{add-mul, mul_comm}
use loom_client.Common.{
  ℕ, zero, suc, ◌+◌, ◌*◌, ◌/◌, ◌≤◌, leb, Bool, true, false, ◌&&◌, some, List, [], ◌∷◌, ◌++◌,
  append_assoc, length, take, drop, length-take, length-drop, length-append, splice, resize,
  length-resize, if◌then◌else◌, ◌≡◌, refl, sym, ◌∙◌, ap, arith,
}
use loom_client.Handles.{replay}
use loom_client.SdlDecoder.{
  AvFrame, DecodedFrame, HevcDecoder, copy_n, and_copy, copy_rows, copy_plane, copy_frame,
  planes_in, produced, decode, ok, decoder_with, new_decoder, no_decoder, destroy, Makes,
}

-- The rows of a plane without what follows each in memory, from `row` on.
abbrev pub packed : (rows row width linesize : ℕ) → List ℕ → List ℕ
packed zero row width linesize plane = []
packed (suc rows) row width linesize plane =
    take width (drop (row * linesize) plane) ++ packed rows (suc row) width linesize plane

drop-all :
    (bs old behind : List ℕ) → length bs ≡ length old → drop (length bs) (old ++ behind) ≡ behind
drop-all [] [] behind e = refl
drop-all [] (x ∷ old) behind e = absurd (omega (arith, e))
drop-all (b ∷ bs) [] behind e = absurd (omega (arith, e))
drop-all (b ∷ bs) (x ∷ old) behind e = drop-all bs old behind (omega (arith, e))

-- Bytes in the middle are overwritten.
splice-middle :
    (before bs old behind : List ℕ)
    → length bs ≡ length old
    → splice (length before) bs (before ++ (old ++ behind)) ≡ before ++ (bs ++ behind)
unfolding splice
splice-middle [] bs old behind same = ap (λ l. bs ++ l) (drop-all bs old behind same)
splice-middle (x ∷ before) bs old behind same =
    ap (λ l. x ∷ l) (splice-middle before bs old behind same)

take-drop : (n : ℕ) (xs : List ℕ) → take n xs ++ drop n xs ≡ xs
take-drop zero xs = refl
take-drop (suc n) [] = refl
take-drop (suc n) (x ∷ xs) = ap (λ l. x ∷ l) (take-drop n xs)

-- One row is copied behind the rows that are there.
copy_n-row :
    (row width linesize : ℕ) (plane before rest : List ℕ)
    → row * linesize + width ≤ length plane
    → length before ≡ row * width
    → width ≤ length rest
    → copy_n (row * linesize) width (row * width) plane (before ++ rest)
      ≡ some (before ++ (take width (drop (row * linesize) plane) ++ drop width rest))
unfolding copy_n
copy_n-row row width linesize plane before rest inside at room =
    let bs = take width (drop (row * linesize) plane) in
    let same : length bs ≡ length (take width rest) = omega (
      arith,
      inside,
      room,
      length-take width (drop (row * linesize) plane),
      length-drop (row * linesize) plane,
      length-take width rest,
    ) in
    let reads : leb (row * linesize + width) (length plane) ≡ true = ground (arith, inside) in
    let writes : leb (row * width + width) (length (before ++ rest)) ≡ true =
      ground (arith, at, room, length-append before rest) in
    rw (reads, writes)
      (ap some (
        ap (λ o. splice o bs (before ++ rest)) (sym at)
        ∙ ap (λ l. splice (length before) bs (before ++ l)) (sym (take-drop width rest))
        ∙ splice-middle before bs (take width rest) (drop width rest) same))

copy_rows-packed :
    (rows row width linesize : ℕ) (plane before rest : List ℕ)
    → width ≤ linesize
    → (row + rows) * linesize ≤ length plane
    → length before ≡ row * width
    → length rest ≡ rows * width
    → copy_rows rows row width linesize plane (before ++ rest)
      ≡ some (before ++ packed rows row width linesize plane)
unfolding copy_rows
copy_rows-packed zero row width linesize plane before [] wide inside at room = refl
copy_rows-packed zero row width linesize plane before (x ∷ rest) wide inside at room =
    absurd (omega (arith, room))
copy_rows-packed (suc rows) row width linesize plane before rest wide inside at room =
    let bs = take width (drop (row * linesize) plane) in
    let split : (suc row + rows) * linesize ≡ row * linesize + linesize + rows * linesize =
      add-mul (suc row) rows linesize ∙ ap (λ k. k + rows * linesize) (omega arith) in
    let whole : (row + suc rows) * linesize ≡ (suc row + rows) * linesize =
      ap (λ k. k * linesize) (omega arith) in
    let here : row * linesize + width ≤ length plane = omega (arith, split, whole, inside, wide) in
    let wide_enough : width ≤ length rest = omega (arith, room) in
    let copied = length-take width (drop (row * linesize) plane) in
    let more : length (before ++ bs) ≡ suc row * width =
      omega
        (arith, at, length-append before bs, copied, length-drop (row * linesize) plane, here) in
    let left : length (drop width rest) ≡ rows * width =
      omega (arith, room, length-drop width rest) in
    ap (λ o. and_copy o (copy_rows rows (suc row) width linesize plane))
      (copy_n-row row width linesize plane before rest here at wide_enough
        ∙ ap some (sym (append_assoc before bs (drop width rest))))
    ∙ copy_rows-packed rows (suc row) width linesize plane (before ++ bs) (drop width rest) wide
        (omega (arith, whole, inside)) more left
    ∙ ap some (append_assoc before bs (packed rows (suc row) width linesize plane))

copy_plane-packed :
    (width height linesize : ℕ) (plane out : List ℕ)
    → width ≤ linesize
    → height * linesize ≤ length plane
    → copy_plane width height linesize plane out ≡ some (packed height 0 width linesize plane)
unfolding copy_plane
copy_plane-packed width height linesize plane out wide inside =
    let size : length (resize (width * height) out) ≡ height * width =
      length-resize (width * height) out ∙ mul_comm width height in
    let zero_add : (0 + height) * linesize ≡ height * linesize =
      ap (λ k. k * linesize) (omega arith) in
    copy_rows-packed height 0 width linesize plane [] (resize (width * height) out) wide
      (omega (arith, inside, zero_add)) (omega arith) size

-- The planes that libavcodec promises: the rows are at least as long as the picture is wide, and all
-- of them are there.
pub record HoldsPicture (f : AvFrame) : Type 0 where
  pub wide_y : f.width ≤ f.linesize_y
  pub wide_u : f.width / 2 ≤ f.linesize_u
  pub wide_v : f.width / 2 ≤ f.linesize_v
  pub rows_y : f.height * f.linesize_y ≤ length f.plane_y
  pub rows_u : f.height / 2 * f.linesize_u ≤ length f.plane_u
  pub rows_v : f.height / 2 * f.linesize_v ≤ length f.plane_v

-- The picture of an access unit, its planes without padding, in place of the one in `out`.
abbrev pub picture_of : AvFrame → (decode_us : ℕ) → DecodedFrame → DecodedFrame
picture_of f decode_us out = record out {
  width = f.width;
  height = f.height;
  y = packed f.height 0 f.width f.linesize_y f.plane_y;
  u = packed (f.height / 2) 0 (f.width / 2) f.linesize_u f.plane_u;
  v = packed (f.height / 2) 0 (f.width / 2) f.linesize_v f.plane_v;
  decode_us = decode_us;
}

copy_frame-picture :
    (f : AvFrame) (decode_us : ℕ) (out : DecodedFrame)
    → HoldsPicture f
    → copy_frame f (record out { decode_us = decode_us }) ≡ some (picture_of f decode_us out)
unfolding copy_frame
copy_frame-picture f decode_us out h =
    let timed = record out { decode_us = decode_us } in
    let cw = f.width / 2 in
    let ch = f.height / 2 in
    let v = copy_plane cw ch f.linesize_v f.plane_v out.v in
    ap (λ y. planes_in f timed y (copy_plane cw ch f.linesize_u f.plane_u out.u) v)
      (copy_plane-packed f.width f.height f.linesize_y f.plane_y out.y h.wide_y h.rows_y)
    ∙ ap (λ u. planes_in f timed (some (picture_of f 0 out).y) u v)
        (copy_plane-packed cw ch f.linesize_u f.plane_u out.u h.wide_u h.rows_u)
    ∙ ap (planes_in f timed (some (picture_of f 0 out).y) (some (picture_of f 0 out).u))
        (copy_plane-packed cw ch f.linesize_v f.plane_v out.v h.wide_v h.rows_v)

decode_made :
    (f : AvFrame) (decode_us : ℕ) (s : HevcDecoder) (out : DecodedFrame)
    → HoldsPicture f
    → f.is_yuv420p ≡ true
    → s.has_ctx ≡ true
    → s.has_pkt ≡ true
    → s.has_frame ≡ true
    → decode true (some f) decode_us s out ≡ some (true, picture_of f decode_us out)
unfolding decode
decode_made f decode_us s out h planar ctx pkt frame =
    rw (ctx, pkt, frame, planar) (ap produced (copy_frame-picture f decode_us out h))

-- A decoder that was built, and whose packet and frame were allocated, decodes a 4:2:0 picture whose
-- planes are as libavcodec promises: it returns true, no copy reads or writes outside of a
-- buffer, and each plane of the frame is the rows of the picture's one after the other, without
-- the padding, whatever the frame held before.
pub decode-picture :
    (a : Makes) (f : AvFrame) (decode_us : ℕ) (out : DecodedFrame)
    → HoldsPicture f
    → f.is_yuv420p ≡ true
    → ok (new_decoder a) ≡ true
    → a.packet ≡ true
    → a.frame ≡ true
    → decode true (some f) decode_us (new_decoder a) out ≡ some (true, picture_of f decode_us out)
unfolding new_decoder ok
decode-picture a f decode_us out h planar built packet frame =
    go (a.codec && a.context) a.opens built
  where
    go :
        (both opens : Bool)
        → (if both then decoder_with opens a else no_decoder []).has_ctx ≡ true
        → decode true (some f) decode_us (if both then decoder_with opens a else no_decoder []) out
          ≡ some (true, picture_of f decode_us out)
    go true true b = decode_made f decode_us _ out h planar refl packet frame
    go true false b = cc
    go false opens b = cc

-- Whatever is made, the destructor gives back what is held, once.
destroy_lem : (a : Makes) → replay (destroy (new_decoder a)).calls (some []) ≡ some []
unfolding destroy new_decoder
destroy_lem a = go a.codec a.context a.opens a.packet a.frame
  where
    go :
        (codec context opens packet frame : Bool)
        → replay
            (destroy (
              if codec && context
              then decoder_with opens (record {
                codec = codec;
                context = context;
                opens = opens;
                packet = packet;
                frame = frame;
              })
              else no_decoder [])).calls
            (some [])
          ≡ some []
    go codec context false packet frame = ground arith
    go codec context true packet frame = ground arith
