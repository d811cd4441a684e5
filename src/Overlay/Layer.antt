-- ===== src/Overlay/Layer.antt =====
-- quest/src/overlay.cpp, quest/src/overlay.hpp: the overlay as an object, from its swapchain to the
-- layer of a frame.
use loom_client.Common.{
  resize, ℕ, ◌*◌, Bool, true, false, not, Option, none, some, List, [], ◌∷◌, ◌++◌, if◌then◌else◌,
}
use loom_client.Overlay.{overlay_width, overlay_height, rasterize}

-- What OpenXR and OpenGL ES are asked: an image of the swapchain is acquired, awaited, filled and
-- given back.
pub data Call : Type 0 where
  create_swapchain destroy_swapchain wait_image release_image : Call
  acquire_image : (given : Bool) → Call
  upload : (index : ℕ) → (width height : ℕ) → List ℕ → Call

pub record Overlay : Type 0 where
  pub has_swapchain : Bool
  pub width : ℕ
  pub height : ℕ
  pub pixels : List ℕ
  pub visible : Bool
  pub calls : List Call

unfoldable pub new_overlay : Overlay
new_overlay = record {
  has_swapchain = false;
  width = 0;
  height = 0;
  pixels = [];
  visible = false;
  calls = [];
}

-- `created`: the answer of xrCreateSwapchain.
unfoldable pub create : (created : Bool) → Overlay → Bool × Overlay
unfolding resize
create created s = (
  created,
  record s {
    has_swapchain = created;
    width = overlay_width;
    height = overlay_height;
    pixels = resize (overlay_width * overlay_height * 4) s.pixels;
    calls = s.calls ++ create_swapchain ∷ [];
  },
)

unfoldable pub toggle : Overlay → Overlay
toggle s = record s { visible = not s.visible }

-- The swapchain image at the index that the runtime gave, if it gave one.
abbrev pub show : Option ℕ → Overlay → Bool × Overlay
show none s = (false, record s { calls = s.calls ++ acquire_image false ∷ [] })
show (some index) s = (
  true,
  record s {
    calls =
        s.calls
        ++ acquire_image true
          ∷ wait_image
          ∷ upload index s.width s.height s.pixels
          ∷ release_image
          ∷ [];
  },
)

abbrev pub show_drawn : Option (List ℕ) → Option ℕ → Overlay → Option (Bool × Overlay)
show_drawn none acquired s = none
show_drawn (some drawn) acquired s = some (show acquired (record s { pixels = drawn }))

-- `acquired`: the answer of xrAcquireSwapchainImage. None where a write leaves the buffer.
unfoldable pub build_layer :
    (acquired : Option ℕ) → List (List ℕ) → Overlay → Option (Bool × Overlay)
unfolding rasterize
build_layer acquired lines s = show_drawn (rasterize s.width s.height lines s.pixels) acquired s

-- The destructor.
unfoldable pub destroy : Overlay → Overlay
destroy s = if s.has_swapchain then record s { calls = s.calls ++ destroy_swapchain ∷ [] } else s
