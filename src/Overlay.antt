-- ===== src/Overlay.antt =====
-- quest/src/overlay.cpp, quest/src/overlay.hpp: the debug overlay. A pixel buffer is the list of its
-- bytes; a write outside of it is none. What OpenXR answers is an argument, and what it and OpenGL ES
-- are given is recorded in `calls`.
pub mod Font
pub mod Paint
pub mod Bands
pub mod Pixels
pub mod Picture
pub mod Bounds
pub mod Layer
use loom_client.Common.{
  splice, ℕ, zero, suc, ◌+◌, ◌-◌, ◌*◌, ℤ, pos, negsuc, ◌-ℤ◌, ◌+ℤ◌, sub_ℕ, leb, ◌==◌, Bool, true,
  false, not, Option, none, some, List, [], ◌∷◌, ◌++◌, length, drop, get_or, if◌then◌else◌,
}
use Font.{font}

abbrev pub overlay_width : ℕ
overlay_width = 768

abbrev pub overlay_height : ℕ
overlay_height = 192

abbrev pub scale : ℕ
scale = 4

abbrev pub glyph_w : ℕ
glyph_w = 6

abbrev pub glyph_h : ℕ
glyph_h = 8

-- `i * n` on an int.
abbrev pub times : ℤ → ℕ → ℤ
times (pos i) n = pos (i * n)
times (negsuc i) n = sub_ℕ 0 ((i + 1) * n)

-- The bytes `bs` are written at `rgba + offset`.
unfoldable pub write_at : ℤ → List ℕ → List ℕ → Option (List ℕ)
unfolding splice
write_at (pos o) bs m = if leb (o + length bs) (length m) then some (splice o bs m) else none
write_at (negsuc o) bs m = none

abbrev pub and_then : Option (List ℕ) → (List ℕ → Option (List ℕ)) → Option (List ℕ)
and_then none f = none
and_then (some m) f = f m

-- `for (i = k; i < k + n; ++i) f(i)`
unfoldable pub loop : ℕ → ℕ → (ℕ → List ℕ → Option (List ℕ)) → List ℕ → Option (List ℕ)
loop zero k f m = some m
loop (suc n) k f m = and_then (f k m) (loop n (suc k) f)

-- Bright green text.
abbrev pub text_color : List ℕ
text_color = 80 ∷ 255 ∷ 160 ∷ 255 ∷ []

abbrev pub put_pixel : ℕ → ℕ → ℕ → ℕ → List ℕ → Option (List ℕ)
put_pixel stride height x y m =
    write_at (times ((pos height -ℤ pos 1) -ℤ pos y) stride +ℤ pos (x * 4)) text_color m

-- One font pixel, `scale` pixels wide and high.
unfoldable pub draw_block : ℕ → ℕ → ℕ → ℕ → List ℕ → Option (List ℕ)
unfolding write_at loop
draw_block stride height x y m =
    loop scale 0 (λ sy. loop scale 0 (λ sx. put_pixel stride height (x + sx) (y + sy))) m

-- `line[col] == '#'`
abbrev pub is_set : List (List ℕ) → ℕ → ℕ → Bool
is_set rows row col = get_or (get_or rows row []) col 0 == 0x23

unfoldable pub draw_rows : ℕ → ℕ → List (List ℕ) → ℕ → ℕ → List ℕ → Option (List ℕ)
unfolding draw_block
draw_rows stride height rows px py m =
    loop 7 0
      (λ row. loop 5 0 (λ col. λ n.
        if not (is_set rows row col)
        then some n
        else draw_block stride height (px + col * scale) (py + row * scale) n))
      m

abbrev pub draw_glyph : ℕ → ℕ → ℕ → ℕ → ℕ → List ℕ → Option (List ℕ)
draw_glyph stride height c px py m = elim (font c) [
  | none ↦ some m
  | some rows ↦ draw_rows stride height rows px py m
]

-- The loop over the characters of a line.
unfoldable pub draw_line : ℕ → ℕ → ℕ → ℕ → List ℕ → List ℕ → Option (List ℕ)
unfolding draw_rows font
draw_line stride height px py [] m = some m
draw_line stride height px py (c ∷ cs) m =
    and_then (draw_glyph stride height c px py m)
      (draw_line stride height (px + glyph_w * scale) py cs)

-- The loop over the lines, from the index `li` on.
unfoldable pub draw_lines : ℕ → ℕ → ℕ → List (List ℕ) → List ℕ → Option (List ℕ)
unfolding draw_line
draw_lines stride height li [] m = some m
draw_lines stride height li (l ∷ ls) m =
    and_then (draw_line stride height 8 (8 + li * (glyph_h * scale)) l m)
      (draw_lines stride height (suc li) ls)

-- The translucent dark background, over every whole pixel.
unfoldable pub clear : List ℕ → List ℕ
clear (a ∷ b ∷ c ∷ d ∷ m) = 0 ∷ 0 ∷ 0 ∷ 150 ∷ clear m
clear m = m

-- The text of the overlay in the scratch buffer.
unfoldable pub rasterize : ℕ → ℕ → List (List ℕ) → List ℕ → Option (List ℕ)
unfolding draw_lines clear
rasterize width height lines m = draw_lines (width * 4) height 0 lines (clear m)
