-- ===== src/EglContext/Choice.antt =====
-- quest/src/egl_context.cpp: the configuration that is chosen, and what is held once the context is gone.
use loom_client.Common.{
  ℕ, bit_and, bit_or, Bool, true, false, Option, none, some, List, [], ◌∷◌, take, Bool-cases,
  true≢false, inl, inr, ◌≡◌, ◌≢◌, ◌⊎◌, refl, sym, ◌∙◌, arith,
}
use loom_client.Handles.{replay, take_handle}
use loom_client.EglContext.{
  Attrib, renderable_type, surface_type, red_size, green_size, blue_size, alpha_size, depth_size,
  stencil_size, samples, Bits, matches, is_chosen, find_config, Answers, new_context, display,
  create, destroy, make_context,
}

-- What is asked of a configuration.
pub record Suits (bits : Bits) (attrib : ℕ → Attrib → ℕ) (c : ℕ) : Type 0 where
  pub renders_es3 : bit_and (attrib c renderable_type) bits.es3_bit ≢ 0
  pub both_surfaces :
      bit_and (attrib c surface_type) (bit_or bits.window_bit bits.pbuffer_bit)
      ≡ bit_or bits.window_bit bits.pbuffer_bit
  pub red_is : attrib c red_size ≡ 8
  pub green_is : attrib c green_size ≡ 8
  pub blue_is : attrib c blue_size ≡ 8
  pub alpha_is : attrib c alpha_size ≡ 8
  pub no_depth : attrib c depth_size ≡ 0
  pub no_stencil : attrib c stencil_size ≡ 0
  pub no_samples : attrib c samples ≡ 0

chosen-Suits :
    (bits : Bits) (attrib : ℕ → Attrib → ℕ) (c : ℕ)
    → is_chosen bits attrib c ≡ true
    → Suits bits attrib c
unfolding matches
chosen-Suits bits attrib c h = record {
  renders_es3 = ground (arith, h);
  both_surfaces = ground (arith, h);
  red_is = ground (arith, h);
  green_is = ground (arith, h);
  blue_is = ground (arith, h);
  alpha_is = ground (arith, h);
  no_depth = ground (arith, h);
  no_stencil = ground (arith, h);
  no_samples = ground (arith, h);
}

Suits-chosen :
    (bits : Bits) (attrib : ℕ → Attrib → ℕ) (c : ℕ)
    → Suits bits attrib c
    → is_chosen bits attrib c ≡ true
unfolding matches
Suits-chosen bits attrib c h = ground (
  arith, h.renders_es3, h.both_surfaces, h.red_is, h.green_is, h.blue_is, h.alpha_is, h.no_depth,
  h.no_stencil, h.no_samples,
)

-- The first configuration that suits, or none does.
abbrev IsFirst : Bits → (ℕ → Attrib → ℕ) → List ℕ → Option ℕ → Type 0
IsFirst bits attrib [] none = Unit {0}
IsFirst bits attrib [] (some d) = ⊥
IsFirst bits attrib (c ∷ cs) none = (¬ Suits bits attrib c) × IsFirst bits attrib cs none
IsFirst bits attrib (c ∷ cs) (some d) =
    ((c ≡ d) × Suits bits attrib c) ⊎ ((¬ Suits bits attrib c) × IsFirst bits attrib cs (some d))

skip_IsFirst :
    (bits : Bits) (attrib : ℕ → Attrib → ℕ) (c : ℕ) (cs : List ℕ) (o : Option ℕ)
    → (¬ Suits bits attrib c)
    → IsFirst bits attrib cs o
    → IsFirst bits attrib (c ∷ cs) o
skip_IsFirst bits attrib c cs none unfit rest = (unfit, rest)
skip_IsFirst bits attrib c cs (some d) unfit rest = inr (unfit, rest)

-- The loop over the configurations takes the first that renders OpenGL ES 3, has both kinds of surface,
-- eight bits for each colour and for alpha, and no depth, stencil or samples, and takes none only if
-- none is so.
find_config-IsFirst :
    (bits : Bits) (attrib : ℕ → Attrib → ℕ) (configs : List ℕ)
    → IsFirst bits attrib configs (find_config bits attrib configs)
unfolding find_config
find_config-IsFirst bits attrib [] = tt
find_config-IsFirst bits attrib (c ∷ cs) = elim (Bool-cases (is_chosen bits attrib c)) [
  | inl fit ↦ rw fit (inl (refl, chosen-Suits bits attrib c fit))
  | inr unfit ↦ rw unfit (
      skip_IsFirst bits attrib c cs (find_config bits attrib cs)
        (λ h. true≢false (sym (Suits-chosen bits attrib c h) ∙ unfit))
        (find_config-IsFirst bits attrib cs))
]

made_calls :
    (a : Answers) (chosen : Option ℕ)
    → replay
        (destroy
          (make_context a chosen
            (record new_context { has_display = true; calls = take_handle display ∷ [] })).1).calls
        (some [])
      ≡ some []
unfolding destroy new_context
made_calls a none = refl
made_calls a (some c) = go a.makes_context a.makes_surface
  where
    go :
        (context surface : Bool)
        → replay
            (destroy
              (make_context
                (record a { makes_context = context; makes_surface = surface })
                (some c)
                (record new_context {
                  has_display = true;
                  calls = take_handle display ∷ [];
                })).1).calls
            (some [])
          ≡ some []
    go false surface = refl
    go true false = refl
    go true true = refl

-- A context is created, whatever EGL answers, and destroyed: the display, the context and the surface
-- are given back, each once and only where it was taken.
destroy-create_context :
    (bits : Bits) (attrib : ℕ → Attrib → ℕ) (a : Answers)
    → replay (destroy (create bits attrib a new_context).1).calls (some []) ≡ some []
unfolding create destroy new_context
destroy-create_context bits attrib a = go a.has_display a.configs
  where
    go :
        (has_display : Bool) (configs : Option (List ℕ))
        → replay
            (destroy
              (create bits attrib
                (record a { has_display = has_display; configs = configs })
                new_context).1).calls
            (some [])
          ≡ some []
    go false configs = refl
    go true none = refl
    go true (some configs) =
        made_calls (record a { has_display = true; configs = some configs })
          (find_config bits attrib (take 256 configs))
