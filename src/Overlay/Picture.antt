-- ===== src/Overlay/Picture.antt =====
-- quest/src/overlay.cpp: the whole picture, against what the font and the layout of the text ask for.
use loom_client.Common.{
  ℕ, zero, suc, ◌+◌, ◌-◌, ◌*◌, ◌/◌, ◌%◌, ◌≤◌, ◌<◌, leb, Bool, true, false, ◌&&◌, ◌||◌, Option, none,
  some, List, [], ◌∷◌, length, list_ext, get_or, get_elem?, if◌then◌else◌, All, ◌≡◌, refl, sym, ◌∙◌,
  ap, arith,
}
use loom_client.Overlay.{clear, draw_line, draw_lines, rasterize, text_color}
use loom_client.Overlay.Font.{font}
use loom_client.Overlay.Paint.{Paints, nothing-Paints, and_then-Paints, Paints-same}
use loom_client.Overlay.Bands.{within, item_at, strips, strips_lem}
use loom_client.Overlay.Pixels.{IsBuffer, column, row_of, bit_of, char_bit, draw_glyph-Paints}

-- The characters of a line, 24 pixels wide each.
chars_lem :
    (v : ℕ) (l : List ℕ) (a u : ℕ)
    → strips (char_bit v) 24 l a u
      ≡ (leb a u && item_at (char_bit v) (get_elem? l ((u - a) / 24)) ((u - a) % 24))
chars_lem v =
    strips_lem (char_bit v) 24 (λ u. λ h. omega (arith, h)) (λ u. λ h. omega (arith, h))
      (λ u. omega arith) (λ u. omega arith)

-- The bit of a line at the column `x`, `v` rows below its upper edge.
abbrev pub line_bit : ℕ → List ℕ → ℕ → Bool
line_bit x l v = leb 8 x && item_at (char_bit v) (get_elem? l ((x - 8) / 24)) ((x - 8) % 24)

-- The bit of the picture: the line and the character are the quotients by their height and width.
abbrev pub picture : List (List ℕ) → ℕ → ℕ → Bool
picture lines x y = leb 8 y && item_at (line_bit x) (get_elem? lines ((y - 8) / 32)) ((y - 8) % 32)

lines_lem :
    (x : ℕ) (ls : List (List ℕ)) (a y : ℕ)
    → strips (line_bit x) 32 ls a y
      ≡ (leb a y && item_at (line_bit x) (get_elem? ls ((y - a) / 32)) ((y - a) % 32))
lines_lem x =
    strips_lem (line_bit x) 32 (λ u. λ h. omega (arith, h)) (λ u. λ h. omega (arith, h))
      (λ u. omega arith) (λ u. omega arith)

and_or : (a b c : Bool) → ((a && b) || (a && c)) ≡ (a && (b || c))
and_or true b c = refl
and_or false b c = refl

and_false : (a : Bool) → false ≡ (a && false)
and_false true = refl
and_false false = refl

draw_line-Paints :
    (l : List ℕ) (px py : ℕ) (m : List ℕ)
    → IsBuffer m
    → px + length l * 24 ≤ 772
    → 1 ≤ py
    → py + 28 ≤ 192
    → Paints m
        (draw_line 3072 192 px py l m)
        (λ p. leb py (row_of p) && strips (char_bit (row_of p - py)) 24 l px (column p))
unfolding draw_line
draw_line-Paints [] px py m size hx top hy =
    Paints-same m _ _ _ (λ p. and_false (leb py (row_of p))) (nothing-Paints m)
draw_line-Paints (c ∷ cs) px py m size hx top hy =
    Paints-same m _ _ _ (λ p. and_or (leb py (row_of p)) _ _)
      (and_then-Paints m _ (draw_line 3072 192 (px + 24) py cs) _
        (λ p. leb py (row_of p) && strips (char_bit (row_of p - py)) 24 cs (px + 24) (column p))
        (draw_glyph-Paints c px py m size (omega (arith, hx)) top hy)
        (λ n. λ len. draw_line-Paints cs (px + 24) py n (len ∙ size) (omega (arith, hx)) top hy))

char_bit-late : (v : ℕ) (o : Option ℕ) (u : ℕ) → 28 ≤ v → item_at (char_bit v) o u ≡ false
char_bit-late v none u h = refl
char_bit-late v (some c) u h = go (font c)
  where
    go : (g : Option (List (List ℕ))) → bit_of g v u ≡ false
    go none = refl
    go (some rows) = ground (arith, h)

-- A line ends before the next begins.
line-band :
    (l : List ℕ) (x py y : ℕ)
    → (leb py y && strips (char_bit (y - py)) 24 l 8 x) ≡ (within py 32 y && line_bit x l (y - py))
line-band l x py y =
    ap (λ b. leb py y && b) (chars_lem (y - py) l 8 x)
    ∙ ground (arith, char_bit-late (y - py) (get_elem? l ((x - 8) / 24)) ((x - 8) % 24))

draw_lines-Paints :
    (ls : List (List ℕ)) (li : ℕ) (m : List ℕ)
    → IsBuffer m
    → li + length ls ≤ 5
    → All (λ l. length l ≤ 31) ls
    → Paints m
        (draw_lines 3072 192 li ls m)
        (λ p. strips (line_bit (column p)) 32 ls (8 + li * 32) (row_of p))
unfolding draw_lines
draw_lines-Paints [] li m size room short = nothing-Paints m
draw_lines-Paints (l ∷ ls) li m size room (h, short) =
    and_then-Paints m _ (draw_lines 3072 192 (suc li) ls) _ _
      (Paints-same m _ _ _ (λ p. line-band l (column p) (8 + li * 32) (row_of p))
        (draw_line-Paints l 8 (8 + li * 32) m size (omega (arith, h)) (omega arith)
          (omega (arith, room))))
      (λ n. λ len.
        Paints-same n _ _ _
          (λ p. ap (λ a. strips (line_bit (column p)) 32 ls a (row_of p)) (omega arith))
          (draw_lines-Paints ls (suc li) n (len ∙ size) (omega (arith, room)) short))

-- A pixel of the dark background.
abbrev background : List ℕ
background = 0 ∷ 0 ∷ 0 ∷ 150 ∷ []

get_elem?-clear :
    (m : List ℕ) (j : ℕ)
    → length m % 4 ≡ 0
    → j < length m
    → get_elem? (clear m) j ≡ some (get_or background (j % 4) 0)
unfolding clear
get_elem?-clear [] j e h = absurd (omega (arith, h))
get_elem?-clear (a ∷ []) j e h = absurd (omega (arith, e))
get_elem?-clear (a ∷ b ∷ []) j e h = absurd (omega (arith, e))
get_elem?-clear (a ∷ b ∷ c ∷ []) j e h = absurd (omega (arith, e))
get_elem?-clear (a ∷ b ∷ c ∷ d ∷ m) zero e h = refl
get_elem?-clear (a ∷ b ∷ c ∷ d ∷ m) (suc zero) e h = refl
get_elem?-clear (a ∷ b ∷ c ∷ d ∷ m) (suc (suc zero)) e h = refl
get_elem?-clear (a ∷ b ∷ c ∷ d ∷ m) (suc (suc (suc zero))) e h = refl
get_elem?-clear (a ∷ b ∷ c ∷ d ∷ m) (suc (suc (suc (suc j)))) e h =
    get_elem?-clear m j (omega (arith, e)) (omega (arith, h))
    ∙ ap (λ k. some (get_or background k 0)) (omega arith)

pub length-clear : (m : List ℕ) → length (clear m) ≡ length m
unfolding clear
length-clear [] = refl
length-clear (a ∷ []) = refl
length-clear (a ∷ b ∷ []) = refl
length-clear (a ∷ b ∷ c ∷ []) = refl
length-clear (a ∷ b ∷ c ∷ d ∷ m) = ap (λ n. suc (suc (suc (suc n)))) (length-clear m)

-- A byte of the picture: of the text or of the background.
abbrev byte_at : List (List ℕ) → ℕ → ℕ
byte_at lines j =
    get_or (if picture lines (column (j / 4)) (row_of (j / 4)) then text_color else background)
      (j % 4) 0

unfoldable tabulate : ℕ → ℕ → (ℕ → ℕ) → List ℕ
tabulate zero k f = []
tabulate (suc n) k f = f k ∷ tabulate n (suc k) f

-- The bytes of the whole picture.
unfoldable pub frame : List (List ℕ) → List ℕ
unfolding tabulate
frame lines = tabulate 589_824 0 (byte_at lines)

length-tabulate : (n k : ℕ) (f : ℕ → ℕ) → length (tabulate n k f) ≡ n
unfolding tabulate
length-tabulate zero k f = refl
length-tabulate (suc n) k f = ap suc (length-tabulate n (suc k) f)

get_elem?-tabulate :
    (n k : ℕ) (f : ℕ → ℕ) (j : ℕ) → j < n → get_elem? (tabulate n k f) j ≡ some (f (k + j))
unfolding tabulate
get_elem?-tabulate zero k f j h = absurd (omega (arith, h))
get_elem?-tabulate (suc n) k f zero h = ap (λ i. some (f i)) (omega arith)
get_elem?-tabulate (suc n) k f (suc j) h =
    get_elem?-tabulate n (suc k) f j (omega (arith, h)) ∙ ap (λ i. some (f i)) (omega arith)

get_elem?-text : (k : ℕ) → k < 4 → get_elem? text_color k ≡ some (get_or text_color k 0)
get_elem?-text k h = ground (arith, h)

choose :
    (b : Bool) (xs ys : List ℕ) (k : ℕ)
    → (if b then some (get_or xs k 0) else some (get_or ys k 0))
      ≡ some (get_or (if b then xs else ys) k 0)
choose true xs ys k = refl
choose false xs ys k = refl

-- At most five lines of at most 31 characters, drawn into a buffer of the overlay's size with any
-- contents: no write leaves the buffer, and its bytes become those of the picture in which the
-- character `i` of the line `l` has its glyph, four pixels for a bit, at the column 8 + 24 i and the
-- row 8 + 32 l from the top, the rows of the buffer counted from the bottom, and all else is
-- background.
pub rasterize-frame :
    (lines : List (List ℕ)) (m : List ℕ)
    → length m ≡ 589_824
    → length lines ≤ 5
    → All (λ l. length l ≤ 31) lines
    → rasterize 768 192 lines m ≡ some (frame lines)
unfolding rasterize frame
rasterize-frame lines m size few short =
    let cleared = length-clear m ∙ size in
    let drawn = draw_lines-Paints lines 0 (clear m) cleared (omega (arith, few)) short in
    let total = drawn.same_length ∙ cleared in
    drawn.ends
    ∙ ap some (
        list_ext drawn.after (tabulate 589_824 0 (byte_at lines))
          (total ∙ sym (length-tabulate 589_824 0 (byte_at lines)))
          (λ j. λ h.
            let from0 : j ≡ 0 + j = omega arith in
            let inside : j < 589_824 = omega (arith, h, total) in
            let lit = picture lines (column (j / 4)) (row_of (j / 4)) in
            drawn.bytes j
            ∙ ap (λ b. if b then get_elem? text_color (j % 4) else get_elem? (clear m) j)
                (lines_lem (column (j / 4)) lines 8 (row_of (j / 4)))
            ∙ ap (λ x. if lit then x else get_elem? (clear m) j)
                (get_elem?-text (j % 4) (omega arith))
            ∙ ap (λ x. if lit then some (get_or text_color (j % 4) 0) else x)
                (get_elem?-clear m j (omega (arith, size)) (omega (arith, inside, size)))
            ∙ choose lit text_color background (j % 4)
            ∙ ap (λ i. some (byte_at lines i)) from0
            ∙ sym (get_elem?-tabulate 589_824 0 (byte_at lines) j inside)))
