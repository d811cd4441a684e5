-- ===== src/EglContext.antt =====
-- quest/src/egl_context.hpp, quest/src/egl_context.cpp: the OpenGL ES context of the Quest client. What
-- EGL answers is an argument, and so are the bits of its header; a value of an attribute is the bit
-- pattern of an EGLint.
pub mod Choice
use loom_client.Common.{
  ℕ, bit_and, bit_or, ◌==◌, Bool, true, false, not, ◌&&◌, Option, none, some, List, [], ◌∷◌, ◌++◌,
  take, if◌then◌else◌,
}
use loom_client.Handles.{HandleCall, take_handle, give_handle, use_handle}

-- The attributes that the code asks for.
pub data Attrib : Type 0 where
  renderable_type surface_type red_size green_size blue_size alpha_size depth_size stencil_size
        samples :
      Attrib

-- The bits of the header of EGL.
pub record Bits : Type 0 where
  pub es3_bit : ℕ
  pub window_bit : ℕ
  pub pbuffer_bit : ℕ

abbrev pub config_attribs : List (Attrib × ℕ)
config_attribs =
    (red_size, 8)
    ∷ (green_size, 8)
    ∷ (blue_size, 8)
    ∷ (alpha_size, 8)
    ∷ (depth_size, 0)
    ∷ (stencil_size, 0)
    ∷ (samples, 0)
    ∷ []

abbrev pub max_configs : ℕ
max_configs = 256

-- The numbers of the handles.
abbrev pub display : ℕ
display = 0

abbrev pub context : ℕ
context = 1

abbrev pub surface : ℕ
surface = 2

module _ (bits : Bits) (attrib : ℕ → Attrib → ℕ) where
  -- The loop over the attributes, as long as they match.
  unfoldable pub matches : ℕ → List (Attrib × ℕ) → Bool
  matches config [] = true
  matches config ((a, wanted) ∷ rest) = (attrib config a == wanted) && matches config rest

  -- One round of the loop over the configurations: this one is taken.
  abbrev pub is_chosen : ℕ → Bool
  is_chosen config =
      if bit_and (attrib config renderable_type) bits.es3_bit == 0
      then false
      else if not (
          bit_and (attrib config surface_type) (bit_or bits.window_bit bits.pbuffer_bit)
          == bit_or bits.window_bit bits.pbuffer_bit)
      then false
      else matches config config_attribs

  unfoldable pub find_config : List ℕ → Option ℕ
  unfolding matches
  find_config [] = none
  find_config (c ∷ cs) = if is_chosen c then some c else find_config cs

pub record EglContext : Type 0 where
  pub has_display : Bool
  pub config : Option ℕ
  pub has_context : Bool
  pub has_surface : Bool
  pub calls : List HandleCall

unfoldable pub new_context : EglContext
new_context = record {
  has_display = false;
  config = none;
  has_context = false;
  has_surface = false;
  calls = [];
}

-- What `create` is answered: a display, its configurations if they are given, a context, a surface,
-- and whether they are made current.
pub record Answers : Type 0 where
  pub has_display : Bool
  pub configs : Option (List ℕ)
  pub makes_context : Bool
  pub makes_surface : Bool
  pub made_current : Bool

abbrev pub taken : ℕ → Bool → List HandleCall
taken k made = if made then take_handle k ∷ [] else []

abbrev pub given : ℕ → Bool → List HandleCall
given k held = if held then give_handle k ∷ [] else []

abbrev pub make_surface : Answers → EglContext → Bool × EglContext
make_surface a s =
    let s1 = record s {
      has_surface = a.makes_surface;
      calls = s.calls ++ taken surface a.makes_surface;
    } in
    if not a.makes_surface then (false, s1) else (
      a.made_current,
      record s1 { calls = s1.calls ++ use_handle surface ∷ use_handle context ∷ [] },
    )

abbrev pub make_context : Answers → Option ℕ → EglContext → Bool × EglContext
make_context a none s = (false, s)
make_context a (some c) s =
    let s1 = record s {
      config = some c;
      has_context = a.makes_context;
      calls = s.calls ++ taken context a.makes_context;
    } in
    if not a.makes_context then (false, s1) else make_surface a s1

abbrev pub choose :
    Bits → (ℕ → Attrib → ℕ) → Answers → Option (List ℕ) → EglContext → Bool × EglContext
choose bits attrib a none s = (false, s)
choose bits attrib a (some configs) s =
    make_context a (find_config bits attrib (take max_configs configs)) s

unfoldable pub create : Bits → (ℕ → Attrib → ℕ) → Answers → EglContext → Bool × EglContext
unfolding find_config
create bits attrib a s =
    if not a.has_display
    then (false, s)
    else choose bits attrib a a.configs
        (record s { has_display = true; calls = s.calls ++ take_handle display ∷ [] })

-- The destructor.
unfoldable pub destroy : EglContext → EglContext
destroy s = if not s.has_display then s else record s {
  calls =
      s.calls
      ++ (given surface s.has_surface ++ given context s.has_context ++ give_handle display ∷ []);
}
