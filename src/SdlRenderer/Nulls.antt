-- ===== src/SdlRenderer/Nulls.antt =====
-- sdl/src/renderer.cpp: the calls that are handed a texture without a test, and how many of them are
-- handed a null pointer.
use loom_client.Common.{
  ℕ, ◌+◌, ◌*◌, ◌≤◌, ◌==◌, Bool, true, false, not, ◌&&◌, ◌||◌, Option, none, some, List, [], ◌∷◌,
  ◌++◌, if◌then◌else◌, ◌≡◌, refl, arith,
}
use loom_client.Handles.{HandleCall, nulls, nulls-append, use_handle, give_handle}
use loom_client.SdlDecoder.{DecodedFrame}
use loom_client.SdlRenderer.{
  Renderer, Answers, Line, new_renderer, ensure_texture, draw_overlay, draw_frame, has_font_for,
  lines_calls, line_calls, present, destroy, window, renderer, texture, font, given, taken, used,
}

abbrev pub copies : Bool → List HandleCall
copies t = used texture t ++ use_handle renderer ∷ use_handle renderer ∷ [] ++ used texture t

abbrev pub with_handles : (w r t f : Bool) (tw th : ℕ) → List HandleCall → Renderer
with_handles w r t f tw th calls = record {
  has_window = w;
  has_renderer = r;
  has_texture = t;
  has_font = f;
  tex_w = tw;
  tex_h = th;
  calls = calls;
}

pub if-P : (P : Renderer → Type 0) (c : Bool) (a b : Renderer) → P a → P b → P (if c then a else b)
if-P P true a b ha hb = ha
if-P P false a b ha hb = hb

-- The frames that are presented, each with the answer of SDL_CreateTexture and the lines as they are
-- rendered.
abbrev pub present_all : List (DecodedFrame × Bool × List (Option Line)) → Renderer → Renderer
present_all [] s = s
present_all ((frame, made, lines) ∷ rest) s = present_all rest (present frame made lines s)

-- The textures that SDL did not make.
abbrev failed_lines : List (Option Line) → ℕ
failed_lines [] = 0
failed_lines (none ∷ ls) = failed_lines ls
failed_lines (some l ∷ ls) = (if l.as_texture then 0 else 1) + failed_lines ls

abbrev pub failures : List (DecodedFrame × Bool × List (Option Line)) → ℕ
failures [] = 0
failures ((frame, made, lines) ∷ rest) =
    (if made then 0 else 1) + failed_lines lines + failures rest

nulls-line :
    (as_texture : Bool) (more : List HandleCall) (n : ℕ)
    → nulls more ≤ 2 * n
    → nulls (line_calls (some (record { w = 0; h = 0; as_texture = as_texture })) ++ more)
      ≤ 2 * ((if as_texture then 0 else 1) + n)
nulls-line true more n h = omega arith
nulls-line false more n h = omega arith

nulls-lines_calls : (ls : List (Option Line)) → nulls (lines_calls ls) ≤ 2 * failed_lines ls
unfolding lines_calls
nulls-lines_calls [] = omega arith
nulls-lines_calls (none ∷ ls) = nulls-lines_calls ls
nulls-lines_calls (some l ∷ ls) = nulls-line l.as_texture (lines_calls ls) _ (nulls-lines_calls ls)

nulls-copies : (t : Bool) → nulls (copies t) ≤ 2 * (if t then 0 else 1)
nulls-copies true = omega arith
nulls-copies false = omega arith

-- Calls added to those of `s`, of which at most `n` are handed a null pointer.
abbrev AddsNulls : ℕ → List HandleCall → Renderer → Type 0
AddsNulls n calls s = nulls s.calls ≤ nulls calls + n

draw_frame-nulls :
    (lines : List (Option Line)) (w r t f : Bool) (tw th : ℕ) (calls : List HandleCall)
    → AddsNulls
        (2 * ((if t then 0 else 1) + failed_lines lines))
        calls
        (draw_frame lines (with_handles w r t f tw th calls))
unfolding draw_frame draw_overlay
draw_frame-nulls lines w r t true tw th calls = omega (
  arith,
  nulls-append (calls ++ copies t ++ lines_calls lines) (use_handle renderer ∷ []),
  nulls-append (calls ++ copies t) (lines_calls lines),
  nulls-append calls (copies t),
  nulls-copies t,
  nulls-lines_calls lines,
)
draw_frame-nulls lines w r t false tw th calls = omega (
  arith,
  nulls-append (calls ++ copies t) (use_handle renderer ∷ []),
  nulls-append calls (copies t),
  nulls-copies t,
)

nulls-ensuring :
    (t made : Bool) → nulls (given texture t ++ use_handle renderer ∷ [] ++ taken texture made) ≡ 0
nulls-ensuring true true = refl
nulls-ensuring true false = refl
nulls-ensuring false true = refl
nulls-ensuring false false = refl

-- No call of `ensure_texture` is handed a null pointer, and the texture is there if it was made.
abbrev Ensures : Bool → Renderer → Renderer → Type 0
Ensures made s x =
    (nulls x.calls ≡ nulls s.calls) × ((if x.has_texture then 0 else 1) ≤ (if made then 0 else 1))

ensure_texture-Ensures :
    (width height : ℕ) (made t : Bool) (s : Renderer)
    → s.has_texture ≡ t
    → Ensures made s (ensure_texture width height made s)
unfolding ensure_texture
ensure_texture-Ensures width height made true s e =
    let texture_calls = give_handle texture ∷ use_handle renderer ∷ taken texture made in
    rw e (
      if-P (Ensures made s) ((s.tex_w == width) && (s.tex_h == height)) _ _ (refl, omega arith)
        (omega (arith, nulls-append s.calls texture_calls, nulls-ensuring true made), omega arith))
ensure_texture-Ensures width height made false s e =
    let texture_calls = use_handle renderer ∷ taken texture made in
    rw e (omega (arith, nulls-append s.calls texture_calls, nulls-ensuring false made), omega arith)

present-nulls :
    (frame : DecodedFrame) (made : Bool) (lines : List (Option Line)) (s : Renderer)
    → AddsNulls
        (2 * ((if made then 0 else 1) + failed_lines lines))
        s.calls
        (present frame made lines s)
unfolding present
present-nulls frame made lines s =
    let new = 2 * ((if made then 0 else 1) + failed_lines lines) in
    let e = ensure_texture frame.width frame.height made s in
    let (same, there) = ensure_texture-Ensures frame.width frame.height made s.has_texture s refl in
    let drawn =
      draw_frame-nulls lines e.has_window e.has_renderer e.has_texture e.has_font e.tex_w e.tex_h
        e.calls in
    if-P (AddsNulls new s.calls) (not s.has_renderer || (frame.width == 0)) _ _ (omega arith)
      (omega (arith, same, there, drawn))

pub present_all-nulls :
    (frames : List (DecodedFrame × Bool × List (Option Line))) (s : Renderer)
    → AddsNulls (2 * failures frames) s.calls (present_all frames s)
present_all-nulls [] s = omega arith
present_all-nulls ((frame, made, lines) ∷ rest) s =
    omega
      (arith, present_all-nulls rest (present frame made lines s), present-nulls frame made lines s)

pub nulls-new_renderer : (a : Answers) → nulls (new_renderer a).calls ≡ 0
unfolding new_renderer
nulls-new_renderer a =
    if-P (λ s. nulls s.calls ≡ 0) (not a.sdl_init) _ _ refl
      (if-P (λ s. nulls s.calls ≡ 0) (not a.makes_window) _ _ refl
        (go (a.accelerated || a.software) (has_font_for a)))
  where
    go : (made f : Bool) → nulls (taken window true ++ taken renderer made ++ taken font f) ≡ 0
    go true true = refl
    go true false = refl
    go false true = refl
    go false false = refl

pub nulls-destroy : (s : Renderer) → nulls (destroy s).calls ≡ nulls s.calls
unfolding destroy
nulls-destroy s =
    let last =
      given font s.has_font
      ++ given texture s.has_texture
      ++ given renderer s.has_renderer
      ++ given window s.has_window in
    omega
      (arith, nulls-append s.calls last, go s.has_font s.has_texture s.has_renderer s.has_window)
  where
    go :
        (f t r w : Bool)
        → nulls (given font f ++ given texture t ++ given renderer r ++ given window w) ≡ 0
    go f t r w = ground arith
