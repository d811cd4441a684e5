-- ===== src/Keymap/LastRow.antt =====
-- proto/src/keymap.cpp: a look-up gives the last row of the text for the code.
use loom_client.Common.{
  ℕ, ℤ, eqb_ℤ, ◌≡◌, refl, ap, ◌∙◌, arith, Option, none, some, List, [], ◌∷◌, if◌then◌else◌,
}
use loom_client.Keymap.{put, get, row_of, put_row, read_lines, lines, from_csv}

abbrev pub take_row : Option (ℤ × ℤ) → Option ℤ → ℤ → Option ℤ
take_row none before code = before
take_row (some (from, to)) before code = if eqb_ℤ from code then some to else before

-- The value of the last line that is a row for `code`, or else `before`.
abbrev pub last_row : Option ℤ → List (List ℕ) → ℤ → Option ℤ
last_row before [] code = before
last_row before (l ∷ ls) code = last_row (take_row (row_of l) before code) ls code

get-put :
    (m : List (ℤ × ℤ)) (k v code : ℤ)
    → get (put k v m) code ≡ (if eqb_ℤ k code then some v else get m code)
unfolding get put
get-put [] k v code = refl
get-put ((j, w) ∷ m) k v code = ground (arith, get-put m k v code)

get-put_row :
    (r : Option (ℤ × ℤ)) (m : List (ℤ × ℤ)) (code : ℤ)
    → get (put_row r m) code ≡ take_row r (get m code) code
get-put_row none m code = refl
get-put_row (some (from, to)) m code = get-put m from to code

get-read_lines :
    (ls : List (List ℕ)) (m : List (ℤ × ℤ)) (code : ℤ)
    → get (read_lines ls m) code ≡ last_row (get m code) ls code
unfolding read_lines
get-read_lines [] m code = refl
get-read_lines (l ∷ ls) m code =
    get-read_lines ls (put_row (row_of l) m) code
    ∙ ap (λ o. last_row o ls code) (get-put_row (row_of l) m code)

-- Whatever the text, `get` gives the value of the last line that is a row for the code: comments,
-- blank lines and lines that are no row of two int64_t change nothing, a later row replaces an
-- earlier one, and a code without a row has no value.
pub get-from_csv :
    (text : List ℕ) (code : ℤ) → get (from_csv text) code ≡ last_row none (lines text) code
unfolding from_csv get
get-from_csv text code = get-read_lines (lines text) [] code
