-- ===== src/SurfaceTexture/Lifetime.antt =====
-- quest/src/surface_texture.cpp: what is held once the texture is gone.
use loom_client.Common.{
  Bool, true, false, not, ◌&&◌, some, [], ◌∷◌, if◌then◌else◌, ◌≡◌, refl, arith,
}
use loom_client.Handles.{replay}
use loom_client.SurfaceTexture.{Answers, new_surface_texture, create, destroy, local_class}

-- A texture is created, whatever succeeds, and destroyed on an attached thread: each handle is given
-- back once and only while it is held, and all are, but for the local reference to the class where
-- the object is not constructed.
pub destroy-create :
    (a : Answers)
    → replay (destroy true (create a new_surface_texture).1).calls (some [])
      ≡ some (if a.attached && not a.constructed then local_class ∷ [] else [])
unfolding destroy create new_surface_texture
destroy-create a = go a.attached a.constructed a.referenced a.wrapped a.acquired
  where
    go :
        (attached constructed referenced wrapped acquired : Bool)
        → let b : Answers = record {
          attached = attached;
          constructed = constructed;
          referenced = referenced;
          wrapped = wrapped;
          acquired = acquired;
        } in
          replay (destroy true (create b new_surface_texture).1).calls (some [])
          ≡ some (if attached && not constructed then local_class ∷ [] else [])
    go false constructed referenced wrapped acquired = refl
    go true false referenced wrapped acquired = refl
    go true true referenced false acquired = ground arith
    go true true referenced true acquired = ground arith
