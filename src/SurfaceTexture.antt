-- ===== src/SurfaceTexture.antt =====
-- quest/src/surface_texture.hpp, quest/src/surface_texture.cpp: the texture that a decoder writes into,
-- with what it takes from OpenGL ES, the JVM and Android. Their answers are arguments; `calls` records
-- what is taken and given back.
pub mod Lifetime
use loom_client.Common.{
  ℕ, ℤ, eqb_ℤ, Bool, true, false, not, ◌&&◌, Option, none, some, List, [], ◌∷◌, ◌++◌, if◌then◌else◌,
}
use loom_client.Handles.{HandleCall, take_handle, give_handle, use_handle}

-- The numbers of the handles; the last two are the local references of `create`.
abbrev pub gl_texture : ℕ
gl_texture = 0

abbrev pub global_ref : ℕ
global_ref = 1

abbrev pub surface_texture : ℕ
surface_texture = 2

abbrev pub native_window : ℕ
native_window = 3

abbrev pub local_class : ℕ
local_class = 4

abbrev pub local_object : ℕ
local_object = 5

pub record SurfaceTexture : Type 0 where
  pub has_vm : Bool
  pub has_texture : Bool
  pub has_global_ref : Bool
  pub has_ast : Bool
  pub has_window : Bool
  pub calls : List HandleCall

unfoldable pub new_surface_texture : SurfaceTexture
new_surface_texture = record {
  has_vm = false;
  has_texture = false;
  has_global_ref = false;
  has_ast = false;
  has_window = false;
  calls = [];
}

-- What `create` is answered: the thread is attached, the object is constructed, it gets a global
-- reference, an ASurfaceTexture and a window.
pub record Answers : Type 0 where
  pub attached : Bool
  pub constructed : Bool
  pub referenced : Bool
  pub wrapped : Bool
  pub acquired : Bool

abbrev pub taken : ℕ → Bool → List HandleCall
taken k made = if made then take_handle k ∷ [] else []

abbrev pub given : ℕ → Bool → List HandleCall
given k held = if held then give_handle k ∷ [] else []

-- The window of the ASurfaceTexture.
abbrev pub acquire_window : Answers → SurfaceTexture → Bool × SurfaceTexture
acquire_window a s = (
  a.acquired,
  record s { has_window = a.acquired; calls = s.calls ++ taken native_window a.acquired },
)

-- The ASurfaceTexture of the object.
abbrev pub wrap : Answers → SurfaceTexture → Bool × SurfaceTexture
wrap a s =
    let s1 = record s { has_ast = a.wrapped; calls = s.calls ++ taken surface_texture a.wrapped } in
    if not a.wrapped then (false, s1) else acquire_window a s1

-- The object of the class, with a global reference in place of the local ones.
abbrev pub construct : Answers → SurfaceTexture → Bool × SurfaceTexture
construct a s =
    let s1 = record s { calls = s.calls ++ take_handle local_class ∷ [] } in
    if not a.constructed
    then (false, s1)
    else wrap a (record s1 {
      has_global_ref = a.referenced;
      calls =
          s1.calls
          ++ (take_handle local_object ∷ taken global_ref a.referenced
              ++ give_handle local_object ∷ give_handle local_class ∷ []);
    })

unfoldable pub create : Answers → SurfaceTexture → Bool × SurfaceTexture
create a s =
    let s1 = record s {
      has_vm = true;
      has_texture = true;
      calls = s.calls ++ take_handle gl_texture ∷ [];
    } in
    if not a.attached then (false, s1) else construct a s1

-- The destructor; `has_env`: the thread is attached to the JVM.
unfoldable pub destroy : (has_env : Bool) → SurfaceTexture → SurfaceTexture
destroy has_env s = record s {
  calls =
      s.calls
      ++ (given native_window s.has_window
          ++ given surface_texture s.has_ast
          ++ given global_ref (s.has_global_ref && s.has_vm && has_env)
          ++ given gl_texture s.has_texture);
}

-- Whether the picture is a new one, and its time: `latched` is the answer of updateTexImage, between
-- the readings `before` and `after`.
unfoldable pub update : (before : ℤ) → (latched : Bool) → (after timestamp_ns : ℤ) → Bool × ℤ
update before latched after timestamp_ns =
    if not latched then (false, timestamp_ns) else (not (eqb_ℤ after before), after)
