-- ===== src/Overlay/Pixels.antt =====
-- quest/src/overlay.cpp: the picture that the loops draw, pixel by pixel.
use loom_client.Common.{
  ℕ, ◌+◌, ◌-◌, ◌*◌, ◌/◌, ◌%◌, ◌≤◌, ◌<◌, pos, ◌+ℤ◌, ◌-ℤ◌, ltb, leb, ◌==◌, Bool, true, false, not,
  ◌&&◌, Option, none, some, List, length, if◌then◌else◌, ◌≡◌, refl, sym, subst, ◌∙◌, arith,
}
use loom_client.Overlay.{
  write_at, times, text_color, put_pixel, draw_block, is_set, draw_rows, draw_glyph,
}
use loom_client.Overlay.Font.{font}
use loom_client.Overlay.Paint.{
  Paints, write_at-Paints, nothing-Paints, loop-Paints, Paints-same, some_of,
}
use loom_client.Overlay.Bands.{within, some_of-same, some_of-strips, some_of-block}

-- The buffer of the overlay.
abbrev pub IsBuffer : List ℕ → Type 0
IsBuffer m = length m ≡ 589_824

-- The column of a pixel of the buffer, and its row from the top.
abbrev pub column : ℕ → ℕ
column p = p % 768

abbrev pub row_of : ℕ → ℕ
row_of p = 191 - p / 768

rows_above : (y : ℕ) → y ≤ 191 → pos 191 -ℤ pos y ≡ pos (191 - y)
unfolding ◌-ℤ◌
rows_above y h = ground (arith, h)

offset_lem :
    (x y : ℕ)
    → y ≤ 191
    → times ((pos 192 -ℤ pos 1) -ℤ pos y) 3072 +ℤ pos (x * 4) ≡ pos (((191 - y) * 768 + x) * 4)
unfolding ◌+ℤ◌ ◌-ℤ◌
offset_lem x y h = rw (rows_above y h) (ground (arith, h))

pub put_pixel-Paints :
    (x y : ℕ) (m : List ℕ)
    → IsBuffer m
    → y ≤ 191
    → (191 - y) * 768 + x < 147_456
    → Paints m (put_pixel 3072 192 x y m) (λ p. p == (191 - y) * 768 + x)
put_pixel-Paints x y m size h inside =
    subst (λ o. Paints m (write_at o text_color m) (λ p. p == (191 - y) * 768 + x))
      (sym (offset_lem x y h))
      (write_at-Paints ((191 - y) * 768 + x) m (omega (arith, size, inside)))

draw_block-Paints :
    (x y : ℕ) (m : List ℕ)
    → IsBuffer m
    → x + 4 ≤ 768
    → 1 ≤ y
    → y + 4 ≤ 192
    → Paints m (draw_block 3072 192 x y m) (λ p. within y 4 (row_of p) && within x 4 (column p))
unfolding draw_block
draw_block-Paints x y m size hx top hy =
    Paints-same m _ _ _ (λ p. some_of-block p x y hx top hy)
      (loop-Paints 4 0 _ (λ sy. λ p. some_of 4 0 (λ sx. p == (191 - (y + sy)) * 768 + (x + sx))) m
        (λ sy. λ hsy. λ n. λ len.
          loop-Paints 4 0 _ (λ sx. λ p. p == (191 - (y + sy)) * 768 + (x + sx)) n
            (λ sx. λ hsx. λ k. λ len2.
              put_pixel-Paints (x + sx) (y + sy) k (len2 ∙ len ∙ size) (omega (arith, hy, hsy))
                (omega (arith, hy, hx, hsx, hsy)))))

guarded :
    (c : Bool) (m : List ℕ) (r : Option (List ℕ)) (s : ℕ → Bool)
    → Paints m r s
    → Paints m (if not c then some m else r) (λ p. c && s p)
guarded true m r s h = h
guarded false m r s h = nothing-Paints m

-- A glyph's bit at an offset in it.
abbrev bit_in : List (List ℕ) → ℕ → ℕ → Bool
bit_in rows v u = ltb v 28 && (ltb u 20 && is_set rows (v / 4) (u / 4))

pub and_assoc : (a b c : Bool) → (a && (b && c)) ≡ ((a && b) && c)
and_assoc true b c = refl
and_assoc false b c = refl

glyph_box :
    (px py x y : ℕ) (c : Bool)
    → (within py 28 y && (within px 20 x && c))
      ≡ (leb py y && (within px 24 x && (ltb (y - py) 28 && (ltb (x - px) 20 && c))))
glyph_box px py x y c = ground arith

some_of-glyph :
    (rows : List (List ℕ)) (px py x y : ℕ)
    → some_of 7 0 (λ row.
      some_of 5 0
        (λ col. is_set rows row col && (within (py + row * 4) 4 y && within (px + col * 4) 4 x)))
      ≡ (leb py y && (within px 24 x && bit_in rows (y - py) (x - px)))
some_of-glyph rows px py x y =
    some_of-same 7 0
      (λ row.
        some_of 5 0
          (λ col. is_set rows row col && (within (py + row * 4) 4 y && within (px + col * 4) 4 x)))
      (λ row. (within px 20 x && is_set rows row ((x - px) / 4)) && within (py + row * 4) 4 y)
      (λ row. λ h.
        some_of-same 5 0
          (λ col. is_set rows row col && (within (py + row * 4) 4 y && within (px + col * 4) 4 x))
          (λ col. (is_set rows row col && within (py + row * 4) 4 y) && within (px + col * 4) 4 x)
          (λ col. λ h2. and_assoc (is_set rows row col) _ _)
        ∙ some_of-strips (λ col. is_set rows row col && within (py + row * 4) 4 y) px x 5
        ∙ (and_assoc (within px 20 x) (is_set rows row ((x - px) / 4)) (within (py + row * 4) 4 y)))
    ∙ some_of-strips (λ row. within px 20 x && is_set rows row ((x - px) / 4)) py y 7
    ∙ glyph_box px py x y (is_set rows ((y - py) / 4) ((x - px) / 4))

draw_rows-Paints :
    (rows : List (List ℕ)) (px py : ℕ) (m : List ℕ)
    → IsBuffer m
    → px + 20 ≤ 768
    → 1 ≤ py
    → py + 28 ≤ 192
    → Paints m (draw_rows 3072 192 rows px py m) (λ p.
      leb py (row_of p) && (within px 24 (column p) && bit_in rows (row_of p - py) (column p - px)))
unfolding draw_rows
draw_rows-Paints rows px py m size hx top hy =
    Paints-same m _ _ _ (λ p. some_of-glyph rows px py (column p) (row_of p))
      (loop-Paints 7 0 _
        (λ row. λ p. some_of 5 0 (λ col.
          is_set rows row col
          && (within (py + row * 4) 4 (row_of p) && within (px + col * 4) 4 (column p))))
        m
        (λ row. λ hrow. λ n. λ len.
          loop-Paints 5 0 _
            (λ col. λ p.
              is_set rows row col
              && (within (py + row * 4) 4 (row_of p) && within (px + col * 4) 4 (column p)))
            n
            (λ col. λ hcol. λ k. λ len2. guarded (is_set rows row col) k _ _ (
              draw_block-Paints (px + col * 4) (py + row * 4) k (len2 ∙ len ∙ size)
                (omega (arith, hx, hcol)) (omega (arith, top)) (omega (arith, hy, hrow))))))

-- The bit of a character at an offset from its corner: rightwards `u`, downwards `v`.
abbrev pub bit_of : Option (List (List ℕ)) → ℕ → ℕ → Bool
bit_of none v u = false
bit_of (some rows) v u = bit_in rows v u

abbrev pub char_bit : ℕ → ℕ → ℕ → Bool
char_bit v c u = bit_of (font c) v u

no_pixels : (a b : Bool) → false ≡ (a && (b && false))
no_pixels a b = ground arith

pub draw_glyph-Paints :
    (c px py : ℕ) (m : List ℕ)
    → IsBuffer m
    → px + 20 ≤ 768
    → 1 ≤ py
    → py + 28 ≤ 192
    → Paints m (draw_glyph 3072 192 c px py m) (λ p.
      leb py (row_of p) && (within px 24 (column p) && char_bit (row_of p - py) c (column p - px)))
draw_glyph-Paints c px py m size hx top hy = go (font c)
  where
    go :
        (g : Option (List (List ℕ)))
        → Paints m
            (elim g [ none ↦ some m | some rows ↦ draw_rows 3072 192 rows px py m ])
            (λ p.
              leb py (row_of p)
              && (within px 24 (column p) && bit_of g (row_of p - py) (column p - px)))
    go none = Paints-same m _ _ _ (λ p. no_pixels _ _) (nothing-Paints m)
    go (some rows) = draw_rows-Paints rows px py m size hx top hy
