-- ===== src/SdlRenderer/Lifetime.antt =====
-- sdl/src/renderer.cpp: the handles of SDL over the life of a renderer.
use loom_client.Common.{
  ℕ, ◌*◌, ◌≤◌, ◌==◌, Bool, true, false, not, ◌&&◌, ◌||◌, Option, none, some, List, [], ◌∷◌, ◌++◌,
  if◌then◌else◌, ◌≡◌, refl, ◌∙◌, ap, arith,
}
use loom_client.Handles.{
  HandleCall, nulls, replay, replay-append, take_handle, use_handle, give_handle,
}
use loom_client.SdlDecoder.{DecodedFrame}
use loom_client.SdlRenderer
use loom_client.SdlRenderer.{
  Renderer, Answers, Line, new_renderer, ensure_texture, draw_overlay, draw_frame, has_font_for,
  lines_calls, line_calls, present, destroy, window, renderer, texture, font, surface, line_texture,
  given, taken, used, released,
}
use loom_client.SdlRenderer.Nulls.{
  copies, with_handles, if-P, present_all, failures, present_all-nulls, nulls-new_renderer,
  nulls-destroy,
}

-- What is held, by the fields.
abbrev own : (w r t f : Bool) → List ℕ
own w r t f =
    (if w then window ∷ [] else [])
    ++ (if r then renderer ∷ [] else [])
    ++ (if t then texture ∷ [] else [])
    ++ (if f then font ∷ [] else [])

-- The calls were allowed, and what they left held is in the fields.
abbrev pub Holds : Renderer → Type 0
Holds s = replay s.calls (some []) ≡ some (own s.has_window s.has_renderer s.has_texture s.has_font)

ensured :
    (w t f made : Bool)
    → replay
        (given texture t ++ use_handle renderer ∷ [] ++ taken texture made)
        (some (own w true t f))
      ≡ some (own w true made f)
ensured w t f made = ground (arith)

copied : (w t f : Bool) → replay (copies t) (some (own w true t f)) ≡ some (own w true t f)
copied w t f = ground arith

ended :
    (w t f : Bool)
    → replay (use_handle renderer ∷ []) (some (own w true t f)) ≡ some (own w true t f)
ended w t f = ground arith

-- A line's surface and texture are given back.
line_done :
    (w t as_texture : Bool)
    → replay
        (use_handle font
          ∷ take_handle surface
          ∷ use_handle renderer
          ∷ use_handle surface
          ∷ (taken line_texture as_texture
              ++ use_handle renderer ∷ use_handle surface ∷ []
              ++ used line_texture as_texture
              ++ released line_texture as_texture
              ++ give_handle surface ∷ []))
        (some (own w true t true))
      ≡ some (own w true t true)
line_done w t as_texture = ground arith

line_skipped :
    (w t : Bool)
    → replay (use_handle font ∷ []) (some (own w true t true)) ≡ some (own w true t true)
line_skipped w t = ground arith

lines_done :
    (w t : Bool) (ls : List (Option Line))
    → replay (lines_calls ls) (some (own w true t true)) ≡ some (own w true t true)
unfolding lines_calls
lines_done w t [] = refl
lines_done w t (none ∷ ls) =
    replay-append (use_handle font ∷ []) (lines_calls ls) (some (own w true t true))
    ∙ ap (replay (lines_calls ls)) (line_skipped w t)
    ∙ lines_done w t ls
lines_done w t (some l ∷ ls) =
    replay-append (line_calls (some l)) (lines_calls ls) (some (own w true t true))
    ∙ ap (replay (lines_calls ls)) (line_done w t l.as_texture)
    ∙ lines_done w t ls

destroyed :
    (w r t f : Bool)
    → replay
        (given font f ++ given texture t ++ given renderer r ++ given window w)
        (some (own w r t f))
      ≡ some []
destroyed w r t f = ground arith

-- More calls, after calls that left `held`.
then_calls :
    (calls more : List HandleCall) (held after : List ℕ)
    → replay calls (some []) ≡ some held
    → replay more (some held) ≡ some after
    → replay (calls ++ more) (some []) ≡ some after
then_calls calls more held after h next =
    replay-append calls more (some []) ∙ ap (replay more) h ∙ next

draw_frame-Holds :
    (lines : List (Option Line)) (w t f : Bool) (tw th : ℕ) (calls : List HandleCall)
    → replay calls (some []) ≡ some (own w true t f)
    → Holds (draw_frame lines (with_handles w true t f tw th calls))
unfolding draw_frame draw_overlay
draw_frame-Holds lines w t true tw th calls h =
    let held = own w true t true in
    let copying = copies t in
    then_calls (calls ++ copying ++ lines_calls lines) (use_handle renderer ∷ []) held held
      (then_calls (calls ++ copying) (lines_calls lines) held held
        (then_calls calls copying held held h (copied w t true)) (lines_done w t lines))
      (ended w t true)
draw_frame-Holds lines w t false tw th calls h =
    let held = own w true t false in
    let copying = copies t in
    then_calls (calls ++ copying) (use_handle renderer ∷ []) held held
      (then_calls calls copying held held h (copied w t false)) (ended w t false)

present-Holds :
    (frame : DecodedFrame) (made : Bool) (lines : List (Option Line)) (s : Renderer)
    → Holds s
    → Holds (present frame made lines s)
unfolding present ensure_texture
present-Holds frame made lines s h = go s.has_renderer h
  where
    go :
        (r : Bool)
        → Holds (with_handles s.has_window r s.has_texture s.has_font s.tex_w s.tex_h s.calls)
        → Holds (
            present frame made lines
              (with_handles s.has_window r s.has_texture s.has_font s.tex_w s.tex_h s.calls))
    go false held = held
    go true held =
        let w = s.has_window in
        let t = s.has_texture in
        let f = s.has_font in
        let texture_calls = given texture t ++ use_handle renderer ∷ [] ++ taken texture made in
        if-P Holds (frame.width == 0) _ _ held (
          if-P (λ x. Holds (draw_frame lines x))
            (t && (s.tex_w == frame.width) && (s.tex_h == frame.height)) _ _
            (draw_frame-Holds lines w t f s.tex_w s.tex_h s.calls held)
            (draw_frame-Holds lines w made f frame.width frame.height (s.calls ++ texture_calls) (
              then_calls s.calls texture_calls (own w true t f) (own w true made f) held
                (ensured w t f made))))

created :
    (made font : Bool)
    → replay (taken window true ++ taken renderer made ++ taken SdlRenderer.font font) (some [])
      ≡ some (own true made false font)
created made font = ground arith

new_renderer-Holds : (a : Answers) → Holds (new_renderer a)
unfolding new_renderer
new_renderer-Holds a = if-P Holds (not a.sdl_init) _ _ refl (
    if-P Holds (not a.makes_window) _ _ refl
      (created (a.accelerated || a.software) (has_font_for a)))

present_all-Holds :
    (frames : List (DecodedFrame × Bool × List (Option Line))) (s : Renderer)
    → Holds s
    → Holds (present_all frames s)
present_all-Holds [] s h = h
present_all-Holds ((frame, made, lines) ∷ rest) s h =
    present_all-Holds rest (present frame made lines s) (present-Holds frame made lines s h)

destroy-replay : (s : Renderer) → Holds s → replay (destroy s).calls (some []) ≡ some []
unfolding destroy
destroy-replay s h =
    then_calls s.calls
      (given font s.has_font
        ++ given texture s.has_texture
        ++ given renderer s.has_renderer
        ++ given window s.has_window)
      (own s.has_window s.has_renderer s.has_texture s.has_font) [] h
      (destroyed s.has_window s.has_renderer s.has_texture s.has_font)

-- A renderer is built, presents any frames with any overlay lines, and is destroyed, whatever SDL and
-- SDL_ttf answer: no window, renderer, texture, font or surface is used or given back unless it is
-- held, none is taken while one of its kind is held, and in the end all are given back; and of the
-- calls that take a texture without a test, at most two for each texture that SDL did not make are
-- handed a null pointer.
pub destroy-releases :
    (a : Answers) (frames : List (DecodedFrame × Bool × List (Option Line)))
    → let calls = (destroy (present_all frames (new_renderer a))).calls in
      (replay calls (some []) ≡ some []) × (nulls calls ≤ 2 * failures frames)
destroy-releases a frames =
    let s = present_all frames (new_renderer a) in
    (
      destroy-replay s (present_all-Holds frames (new_renderer a) (new_renderer-Holds a)),
      omega
          (arith, nulls-destroy s, present_all-nulls frames (new_renderer a), nulls-new_renderer a),
    )
