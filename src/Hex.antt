-- ===== src/Hex.antt =====
-- proto/include/loom/proto/hex.hpp: bytes as hexadecimal text.
pub mod RoundTrip
use loom_client.Common.{
  ℕ, ◌+◌, ◌-◌, ◌*◌, ◌/◌, ◌%◌, ◌^◌, bit_and, bit_or, Bool, ◌&&◌, List, [], ◌∷◌, get_or, leb,
  if◌then◌else◌,
}
use loom_client.Text.{codes}

abbrev pub digits : List ℕ
digits = codes "0123456789abcdef"

unfoldable pub to_hex : List ℕ → List ℕ
to_hex [] = []
to_hex (b ∷ bytes) = get_or digits (b / 2 ^ 4) 0 ∷ get_or digits (bit_and b 0x0f) 0 ∷ to_hex bytes

unfoldable pub nib : ℕ → ℕ
nib c =
    if leb b'0' c && leb c b'9'
    then c - b'0'
    else if leb b'a' c && leb c b'f'
    then c - b'a' + 10
    else if leb b'A' c && leb c b'F'
    then c - b'A' + 10
    else 0

-- A last character without a second one is left out.
unfoldable pub from_hex : List ℕ → List ℕ
unfolding nib
from_hex [] = []
from_hex (c ∷ []) = []
from_hex (c ∷ d ∷ h) = bit_or (nib c * 2 ^ 4) (nib d) % 256 ∷ from_hex h
