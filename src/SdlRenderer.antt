-- ===== src/SdlRenderer.antt =====
-- sdl/src/renderer.hpp, sdl/src/renderer.cpp: the window of the SDL client, what is drawn in it and the
-- handles of SDL that it keeps. What SDL and SDL_ttf answer are arguments; `calls` records what is taken,
-- used and given back.
pub mod Nulls
pub mod Lifetime
use loom_client.Common.{
  ℕ, ◌+◌, ◌-◌, ◌==◌, Bool, true, false, not, ◌&&◌, ◌||◌, Option, none, some, List, [], ◌∷◌, ◌++◌,
  if◌then◌else◌,
}
use loom_client.Handles.{HandleCall, take_handle, give_handle, use_handle, null_call}
use loom_client.SdlDecoder.{DecodedFrame}
use loom_client.Text.{codes}

-- The numbers of the handles.
abbrev pub window : ℕ
window = 0

abbrev pub renderer : ℕ
renderer = 1

abbrev pub texture : ℕ
texture = 2

abbrev pub font : ℕ
font = 3

abbrev pub surface : ℕ
surface = 4

abbrev pub line_texture : ℕ
line_texture = 5

pub record Renderer : Type 0 where
  pub has_window : Bool
  pub has_renderer : Bool
  pub has_texture : Bool
  pub has_font : Bool
  pub tex_w : ℕ
  pub tex_h : ℕ
  pub calls : List HandleCall

-- The first of the paths whose font opens; `opens`: the answer of TTF_OpenFont.
unfoldable pub first_font : (opens : List ℕ → Bool) → List (Option (List ℕ)) → Option (List ℕ)
first_font opens [] = none
first_font opens (none ∷ paths) = first_font opens paths
first_font opens (some path ∷ paths) = if opens path then some path else first_font opens paths

-- `env`: the value of LOOM_OVERLAY_FONT, if it is set.
unfoldable pub open_overlay_font :
    (opens : List ℕ → Bool) → (env : Option (List ℕ)) → Option (List ℕ)
unfolding first_font
open_overlay_font opens env = first_font opens (
    env
    ∷ some (codes "/System/Library/Fonts/Menlo.ttc")
    ∷ some (codes "/System/Library/Fonts/Monaco.ttf")
    ∷ some (codes "/System/Library/Fonts/SFNSMono.ttf")
    ∷ some (codes "/System/Library/Fonts/Courier.ttc")
    ∷ [])

-- What the constructor is answered.
pub record Answers : Type 0 where
  pub sdl_init : Bool
  pub makes_window : Bool
  pub accelerated : Bool
  pub software : Bool
  pub ttf_init : Bool
  pub opens : List ℕ → Bool
  pub env : Option (List ℕ)

abbrev pub empty : Renderer
empty = record {
  has_window = false;
  has_renderer = false;
  has_texture = false;
  has_font = false;
  tex_w = 0;
  tex_h = 0;
  calls = [];
}

-- A handle that was made, or a null pointer.
abbrev pub taken : ℕ → Bool → List HandleCall
taken k made = if made then take_handle k ∷ [] else []

abbrev pub opened : Option (List ℕ) → Bool
opened none = false
opened (some path) = true

abbrev pub has_font_for : Answers → Bool
has_font_for a = if not a.ttf_init then false else opened (open_overlay_font a.opens a.env)

unfoldable pub new_renderer : Answers → Renderer
unfolding open_overlay_font
new_renderer a =
    if not a.sdl_init
    then empty
    else if not a.makes_window
    then empty
    else let made = a.accelerated || a.software in
      record empty {
        has_window = true;
        has_renderer = made;
        has_font = has_font_for a;
        calls = taken window true ++ taken renderer made ++ taken font (has_font_for a);
      }

abbrev pub given : ℕ → Bool → List HandleCall
given k held = if held then give_handle k ∷ [] else []

-- The destructor.
unfoldable pub destroy : Renderer → Renderer
destroy s = record s {
  has_window = false;
  has_renderer = false;
  has_texture = false;
  has_font = false;
  calls =
      s.calls
      ++ (given font s.has_font
          ++ given texture s.has_texture
          ++ given renderer s.has_renderer
          ++ given window s.has_window);
}

-- A call that uses a handle or gives it back without a test for null.
abbrev pub used : ℕ → Bool → List HandleCall
used k held = if held then use_handle k ∷ [] else null_call k ∷ []

abbrev pub released : ℕ → Bool → List HandleCall
released k held = if held then give_handle k ∷ [] else null_call k ∷ []

-- `made`: the answer of SDL_CreateTexture.
unfoldable pub ensure_texture : (width height : ℕ) → (made : Bool) → Renderer → Renderer
ensure_texture width height made s =
    if s.has_texture && (s.tex_w == width) && (s.tex_h == height) then s else record s {
      has_texture = made;
      tex_w = width;
      tex_h = height;
      calls =
          s.calls
          ++ (given texture s.has_texture ++ use_handle renderer ∷ [] ++ taken texture made);
    }

-- A line of the overlay as SDL_ttf renders it, with its size; `as_texture`: the answer of
-- SDL_CreateTextureFromSurface.
pub record Line : Type 0 where
  pub w : ℕ
  pub h : ℕ
  pub as_texture : Bool

pub record Rect : Type 0 where
  pub x : ℕ
  pub y : ℕ
  pub w : ℕ
  pub h : ℕ

-- The boxes behind the lines, the uppermost first; a line that is not rendered is skipped.
unfoldable pub boxes : (y : ℕ) → List (Option Line) → List Rect
boxes y [] = []
boxes y (none ∷ lines) = boxes y lines
boxes y (some l ∷ lines) =
    record { x = 4; y = y - 2; w = l.w + 8; h = l.h + 4 } ∷ boxes (y + (l.h + 2)) lines

-- The calls for one line; its texture is copied and destroyed without a test.
abbrev pub line_calls : Option Line → List HandleCall
line_calls none = use_handle font ∷ []
line_calls (some l) =
    use_handle font
    ∷ take_handle surface
    ∷ use_handle renderer
    ∷ use_handle surface
    ∷ (taken line_texture l.as_texture
        ++ use_handle renderer ∷ use_handle surface ∷ []
        ++ used line_texture l.as_texture
        ++ released line_texture l.as_texture
        ++ give_handle surface ∷ [])

unfoldable pub lines_calls : List (Option Line) → List HandleCall
lines_calls [] = []
lines_calls (l ∷ ls) = line_calls l ++ lines_calls ls

unfoldable pub draw_overlay : List (Option Line) → Renderer → Renderer
unfolding lines_calls
draw_overlay lines s =
    if not s.has_font then s else record s { calls = s.calls ++ lines_calls lines }

-- The frame on the texture, which is null where SDL_CreateTexture failed; the overlay on the frame.
unfoldable pub draw_frame : List (Option Line) → Renderer → Renderer
unfolding draw_overlay
draw_frame lines s =
    let copied = record s {
      calls =
          s.calls
          ++ (used texture s.has_texture
              ++ use_handle renderer ∷ use_handle renderer ∷ []
              ++ used texture s.has_texture);
    } in
    let drawn = draw_overlay lines copied in
    record drawn { calls = drawn.calls ++ use_handle renderer ∷ [] }

unfoldable pub present : DecodedFrame → (made : Bool) → List (Option Line) → Renderer → Renderer
unfolding ensure_texture draw_frame
present frame made lines s =
    if not s.has_renderer || (frame.width == 0)
    then s
    else draw_frame lines (ensure_texture frame.width frame.height made s)

-- An event that SDL_PollEvent gives.
pub data Event : Type 0 where
  quit escape other : Event

-- Whether the user asked to quit, and the events that are still in the queue.
unfoldable pub poll_quit : List Event → Bool × List Event
poll_quit [] = (false, [])
poll_quit (quit ∷ es) = (true, es)
poll_quit (escape ∷ es) = (true, es)
poll_quit (other ∷ es) = poll_quit es
