-- ===== src/Keymap.antt =====
-- proto/include/loom/proto/keymap.hpp, proto/src/keymap.cpp: key codes from a CSV text. The
-- unordered map is an association list with one entry for a key.
pub mod LastRow
use loom_client.Common.{
  ℕ, zero, suc, ◌+◌, ◌-◌, ◌*◌, ◌^◌, ℤ, pos, negsuc, eqb_ℤ, Bool, true, false, not, ◌&&◌, ◌||◌,
  Option, none, some, List, [], ◌∷◌, length, ltb, leb, ◌==◌, if◌then◌else◌,
}

abbrev pub is_space : ℕ → Bool
is_space c = c == b' ' || c == 0x09 || c == 0x0d

unfoldable pub trim_front : List ℕ → List ℕ
trim_front [] = []
trim_front (c ∷ s) = if is_space c then trim_front s else c ∷ s

-- `c` before the rest, which is trimmed at its end.
abbrev pub keep_unless_space : ℕ → List ℕ → List ℕ
keep_unless_space c [] = if is_space c then [] else c ∷ []
keep_unless_space c (d ∷ s) = c ∷ d ∷ s

unfoldable pub trim_back : List ℕ → List ℕ
trim_back [] = []
trim_back (c ∷ s) = keep_unless_space c (trim_back s)

unfoldable pub trim : List ℕ → List ℕ
unfolding trim_front trim_back
trim s = trim_back (trim_front s)

abbrev pub is_digit : ℕ → Bool
is_digit c = leb b'0' c && leb c b'9'

-- The digits of all of `s`, behind the digits of `n`.
unfoldable pub read_digits : ℕ → List ℕ → Option ℕ
read_digits n [] = some n
read_digits n (c ∷ s) = if is_digit c then read_digits (n * 10 + (c - b'0')) s else none

abbrev pub minus : ℕ → ℤ
minus zero = pos 0
minus (suc n) = negsuc n

-- In the range of int64_t.
abbrev pub positive : Option ℕ → Option ℤ
positive none = none
positive (some n) = if ltb n (2 ^ 63) then some (pos n) else none

abbrev pub negative : Option ℕ → Option ℤ
negative none = none
negative (some n) = if leb n (2 ^ 63) then some (minus n) else none

-- `std::from_chars` in base 10, to the end of the text: digits, one at least, behind a minus sign or
-- none.
unfoldable pub from_chars : List ℕ → Option ℤ
unfolding read_digits
from_chars [] = none
from_chars (c ∷ []) = positive (read_digits 0 (c ∷ []))
from_chars (c ∷ d ∷ s) =
    if c == b'-' then negative (read_digits 0 (d ∷ s)) else positive (read_digits 0 (c ∷ d ∷ s))

unfoldable pub parse_int : List ℕ → Option ℤ
unfolding trim from_chars
parse_int s = from_chars (trim s)

-- `map_[from] = to`
unfoldable pub put : ℤ → ℤ → List (ℤ × ℤ) → List (ℤ × ℤ)
put k v [] = (k, v) ∷ []
put k v ((j, w) ∷ m) = if eqb_ℤ j k then (k, v) ∷ m else (j, w) ∷ put k v m

unfoldable pub get : List (ℤ × ℤ) → ℤ → Option ℤ
get [] code = none
get ((j, w) ∷ m) code = if eqb_ℤ j code then some w else get m code

unfoldable pub size : List (ℤ × ℤ) → ℕ
size m = length m

-- The lines, without the newlines; nothing follows the last newline.
abbrev pub into_first : ℕ → List (List ℕ) → List (List ℕ)
into_first c [] = (c ∷ []) ∷ []
into_first c (l ∷ ls) = (c ∷ l) ∷ ls

unfoldable pub lines : List ℕ → List (List ℕ)
lines [] = []
lines (c ∷ s) = if c == 0x0a then [] ∷ lines s else into_first c (lines s)

-- What stands before and behind the first comma.
abbrev pub before_too : ℕ → Option (List ℕ × List ℕ) → Option (List ℕ × List ℕ)
before_too c none = none
before_too c (some (a, b)) = some (c ∷ a, b)

unfoldable pub split_comma : List ℕ → Option (List ℕ × List ℕ)
split_comma [] = none
split_comma (c ∷ s) = if c == b',' then some ([], s) else before_too c (split_comma s)

abbrev pub both : Option ℤ → Option ℤ → Option (ℤ × ℤ)
both (some from) (some to) = some (from, to)
both _ _ = none

abbrev pub row_of_parts : Option (List ℕ × List ℕ) → Option (ℤ × ℤ)
row_of_parts none = none
row_of_parts (some (a, b)) = both (parse_int a) (parse_int b)

abbrev pub row_of_trimmed : List ℕ → Option (ℤ × ℤ)
row_of_trimmed [] = none
row_of_trimmed (c ∷ s) = if c == b'#' then none else row_of_parts (split_comma (c ∷ s))

-- The row of a line, if it is one: no comment, a comma, two numbers.
unfoldable pub row_of : List ℕ → Option (ℤ × ℤ)
unfolding trim split_comma parse_int
row_of line = row_of_trimmed (trim line)

abbrev pub put_row : Option (ℤ × ℤ) → List (ℤ × ℤ) → List (ℤ × ℤ)
put_row none m = m
put_row (some (from, to)) m = put from to m

unfoldable pub read_lines : List (List ℕ) → List (ℤ × ℤ) → List (ℤ × ℤ)
unfolding row_of put
read_lines [] m = m
read_lines (l ∷ ls) m = read_lines ls (put_row (row_of l) m)

unfoldable pub from_csv : List ℕ → List (ℤ × ℤ)
unfolding lines read_lines
from_csv text = read_lines (lines text) []
