-- ===== src/Tests/TextRuns.antt =====
-- The theorems on proto/src/keymap.cpp and hex.hpp at concrete inputs.
use loom_client.Common.{pos, negsuc, ◌≡◌, refl, none, some, [], ◌∷◌, List, ℕ}
use loom_client.Keymap.{
  from_csv, get, put, read_lines, row_of, lines, trim, trim_front, trim_back, split_comma,
  parse_int, from_chars, read_digits,
}

-- "# c\n 29 , 30\n7,x\n29,-31"
abbrev csv : List ℕ
csv =
    0x23 ∷ 0x20 ∷ 0x63 ∷ 0x0a ∷ 0x20 ∷ 0x32 ∷ 0x39 ∷ 0x20 ∷ 0x2c ∷ 0x20 ∷ 0x33 ∷ 0x30 ∷ 0x0a ∷ 0x37
    ∷ 0x2c ∷ 0x78 ∷ 0x0a ∷ 0x32 ∷ 0x39 ∷ 0x2c ∷ 0x2d ∷ 0x33 ∷ 0x31 ∷ []

looked_up : get (from_csv csv) (pos 29) ≡ some (negsuc 30)
unfolding get from_csv put read_lines row_of lines trim trim_front trim_back split_comma parse_int
    from_chars read_digits
looked_up = refl

skipped : get (from_csv csv) (pos 7) ≡ none
unfolding get from_csv put read_lines row_of lines trim trim_front trim_back split_comma parse_int
    from_chars read_digits
skipped = refl
