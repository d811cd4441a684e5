-- ===== src/Hex/RoundTrip.antt =====
-- proto/include/loom/proto/hex.hpp: hexadecimal text reads back as the bytes.
use loom_client.Common.{
  ℕ, ◌<◌, ◌/◌, ◌%◌, ◌*◌, ◌^◌, bit_and, bit_or, ◌≡◌, refl, List, [], ◌∷◌, All, ◌==◌, all_below,
  all_below→, ==_iff, true, get_or,
}
use loom_client.Hex.{to_hex, from_hex, nib, digits}

abbrev byte_back : ℕ → ℕ
byte_back b =
    bit_or (nib (get_or digits (b / 2 ^ 4) 0) * 2 ^ 4) (nib (get_or digits (bit_and b 0x0f) 0))
    % 256

byte_back_table : all_below 256 (λ b. byte_back b == b) ≡ true
unfolding all_below nib
byte_back_table = refl

-- The text of a byte string reads back as it, in lower case digits.
pub from_hex-to_hex : (bytes : List ℕ) → All (λ b. b < 256) bytes → from_hex (to_hex bytes) ≡ bytes
unfolding to_hex from_hex
from_hex-to_hex [] h = refl
from_hex-to_hex (b ∷ bytes) h =
    let same = (==_iff _ _).0 (all_below→ 256 _ b byte_back_table h.0) in
    rw (same, from_hex-to_hex bytes h.1)
