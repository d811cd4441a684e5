-- ===== src/Overlay/Bounds.antt =====
-- quest/src/overlay.cpp: the writes stay in the buffer, also where a line is too long for it.
use loom_client.Common.{
  ℕ, zero, suc, ◌+◌, ◌*◌, ◌≤◌, ◌<◌, Bool, true, false, not, Option, none, some, List, [], ◌∷◌,
  length, if◌then◌else◌, All, ◌≡◌, refl, ◌∙◌, ap, arith,
}
use loom_client.Overlay.{
  and_then, loop, draw_block, draw_rows, draw_line, draw_lines, rasterize, is_set, clear,
}
use loom_client.Overlay.Font.{font}
use loom_client.Overlay.Picture.{length-clear}
use loom_client.Overlay.Pixels.{IsBuffer, put_pixel-Paints}

-- Drawing on `m` ends, in a buffer of the same size.
pub record Stays (m : List ℕ) (r : Option (List ℕ)) : Type 0 where
  pub after : List ℕ
  pub ends : r ≡ some after
  pub same_length : length after ≡ length m

nothing-Stays : (m : List ℕ) → Stays m (some m)
nothing-Stays m = record { after = m; ends = refl; same_length = refl }

and_then-Stays :
    (m : List ℕ) (r : Option (List ℕ)) (f : List ℕ → Option (List ℕ))
    → Stays m r
    → ((n : List ℕ) → length n ≡ length m → Stays n (f n))
    → Stays m (and_then r f)
and_then-Stays m r f first next =
    let second = next first.after first.same_length in
    record {
      after = second.after;
      ends = ap (λ x. and_then x f) first.ends ∙ second.ends;
      same_length = second.same_length ∙ first.same_length;
    }

loop-Stays :
    (n k : ℕ) (f : ℕ → List ℕ → Option (List ℕ)) (m : List ℕ)
    → IsBuffer m
    → ((i : ℕ) → i < k + n → (x : List ℕ) → IsBuffer x → Stays x (f i x))
    → Stays m (loop n k f m)
unfolding loop
loop-Stays zero k f m size each = nothing-Stays m
loop-Stays (suc n) k f m size each =
    and_then-Stays m (f k m) (loop n (suc k) f) (each k (omega arith) m size)
      (λ x. λ e. loop-Stays n (suc k) f x (e ∙ size) (λ i. λ h. each i (omega (arith, h))))

draw_block-Stays :
    (x y : ℕ) (m : List ℕ)
    → IsBuffer m
    → 8 ≤ y
    → y + 4 ≤ 192
    → x + 4 ≤ 6912
    → Stays m (draw_block 3072 192 x y m)
unfolding draw_block
draw_block-Stays x y m size top hy hx = loop-Stays 4 0 _ m size (λ sy. λ hsy. λ n. λ len.
    loop-Stays 4 0 _ n len (λ sx. λ hsx. λ k. λ len2.
      let put =
        put_pixel-Paints (x + sx) (y + sy) k len2 (omega (arith, hy, hsy))
          (omega (arith, top, hy, hx, hsx, hsy)) in
      record { after = put.after; ends = put.ends; same_length = put.same_length }))

guarded :
    (c : Bool) (m : List ℕ) (r : Option (List ℕ))
    → Stays m r
    → Stays m (if not c then some m else r)
guarded true m r h = h
guarded false m r h = nothing-Stays m

draw_rows-Stays :
    (rows : List (List ℕ)) (px py : ℕ) (m : List ℕ)
    → IsBuffer m
    → 8 ≤ py
    → py + 28 ≤ 192
    → px + 20 ≤ 6912
    → Stays m (draw_rows 3072 192 rows px py m)
unfolding draw_rows
draw_rows-Stays rows px py m size top hy hx = loop-Stays 7 0 _ m size (λ row. λ hrow. λ n. λ len.
    loop-Stays 5 0 _ n len (λ col. λ hcol. λ k. λ len2. guarded (is_set rows row col) k _ (
      draw_block-Stays (px + col * 4) (py + row * 4) k len2 (omega (arith, top))
        (omega (arith, hy, hrow)) (omega (arith, hx, hcol)))))

draw_glyph-Stays :
    (g : Option (List (List ℕ))) (px py : ℕ) (m : List ℕ)
    → IsBuffer m
    → 8 ≤ py
    → py + 28 ≤ 192
    → px + 20 ≤ 6912
    → Stays m (elim g [ none ↦ some m | some rows ↦ draw_rows 3072 192 rows px py m ])
draw_glyph-Stays none px py m size top hy hx = nothing-Stays m
draw_glyph-Stays (some rows) px py m size top hy hx = draw_rows-Stays rows px py m size top hy hx

draw_line-Stays :
    (l : List ℕ) (px py : ℕ) (m : List ℕ)
    → IsBuffer m
    → 8 ≤ py
    → py + 28 ≤ 192
    → px + length l * 24 ≤ 6912
    → Stays m (draw_line 3072 192 px py l m)
unfolding draw_line
draw_line-Stays [] px py m size top hy hx = nothing-Stays m
draw_line-Stays (c ∷ cs) px py m size top hy hx =
    and_then-Stays m _ (draw_line 3072 192 (px + 24) py cs)
      (draw_glyph-Stays (font c) px py m size top hy (omega (arith, hx)))
      (λ n. λ len. draw_line-Stays cs (px + 24) py n (len ∙ size) top hy (omega (arith, hx)))

draw_lines-Stays :
    (ls : List (List ℕ)) (li : ℕ) (m : List ℕ)
    → IsBuffer m
    → li + length ls ≤ 5
    → All (λ l. length l ≤ 287) ls
    → Stays m (draw_lines 3072 192 li ls m)
unfolding draw_lines
draw_lines-Stays [] li m size room short = nothing-Stays m
draw_lines-Stays (l ∷ ls) li m size room (h, short) =
    and_then-Stays m _ (draw_lines 3072 192 (suc li) ls)
      (draw_line-Stays l 8 (8 + li * 32) m size (omega arith) (omega (arith, room))
        (omega (arith, h)))
      (λ n. λ len. draw_lines-Stays ls (suc li) n (len ∙ size) (omega (arith, room)) short)

pub rasterize-Stays :
    (lines : List (List ℕ)) (m : List ℕ)
    → length m ≡ 589_824
    → length lines ≤ 5
    → All (λ l. length l ≤ 287) lines
    → Stays (clear m) (rasterize 768 192 lines m)
unfolding rasterize
rasterize-Stays lines m size few short =
    draw_lines-Stays lines 0 (clear m) (length-clear m ∙ size) (omega (arith, few)) short
