-- ===== src/Cbor/Decode.antt =====
-- proto/src/cbor.cpp: the decoder. `b` and `pos` are one list, the bytes that are not read yet, so
-- `b.size() - pos` is its length.
use loom_client.Common.{
  ℕ, zero, suc, ◌+◌, ◌-◌, ◌*◌, ◌/◌, ◌%◌, ◌^◌, bit_and, bit_or, pos, negsuc, true, false, Option,
  none, some, List, [], ◌∷◌, length, take, drop, ltb, ◌==◌, if◌then◌else◌,
}
use loom_client.Cbor.{
  Value, Items, Fields, null, boolean, integer, bytes, text, array, map, floating, no_items, item,
  no_fields, field,
}
use loom_client.Cbor.Float.{f16_to_f32, widen, u16, u32}

-- `malformed` is `nullopt`. `stuck` has no counterpart in the program: the fuel ran out.
pub data Outcome {ℓ} (A : Type ℓ) : Type ℓ where
  ok : A → Outcome A
  malformed stuck : Outcome A

infixl 5 ◌>>=◌
abbrev pub ◌>>=◌ {ℓ κ} : {A : Type ℓ} {B : Type κ} → Outcome A → (A → Outcome B) → Outcome B
ok a >>= f = f a
malformed >>= f = malformed
stuck >>= f = stuck

abbrev pub Reader {ℓ} : Type ℓ → Type ℓ
Reader A = List ℕ → Outcome (A × List ℕ)

-- `for (k = 0; k < nbytes; ++k) v = (v << 8) | b[pos++]`
unfoldable pub read_loop : ℕ → ℕ → Reader ℕ
read_loop zero v b = ok (v, b)
read_loop (suc n) v [] = malformed
read_loop (suc n) v (x ∷ b) = read_loop n (bit_or (v * 2 ^ 8 % 2 ^ 64) x) b

unfoldable pub read_be : ℕ → Reader ℕ
unfolding read_loop
read_be nbytes b = if ltb (length b) nbytes then malformed else read_loop nbytes 0 b

-- The argument that the additional information `ai` announces.
unfoldable pub read_arg : ℕ → Reader ℕ
unfolding read_be
read_arg ai b =
    if ltb ai 24
    then ok (ai, b)
    else if ai == 24
    then read_be 1 b
    else if ai == 25
    then read_be 2 b
    else if ai == 26
    then read_be 4 b
    else if ai == 27
    then read_be 8 b
    else malformed

unfoldable pub read_simple : ℕ → ℕ → Reader Value
read_simple ai arg b =
    if ai == 20
    then ok (boolean false, b)
    else if ai == 21
    then ok (boolean true, b)
    else if ai == 22
    then ok (null, b)
    else if ai == 25
    then ok (floating (widen (f16_to_f32 (u16 arg))), b)
    else if ai == 26
    then ok (floating (widen (u32 arg)), b)
    else if ai == 27
    then ok (floating arg, b)
    else malformed

-- The `switch (major)`; `items` and `fields` run the loops of cases 4 and 5.
unfoldable pub decode_major :
    (items : ℕ → Reader Items) (fields : ℕ → Reader Fields) (major ai arg : ℕ) → Reader Value
unfolding read_simple
decode_major items fields major ai arg b =
    if major == 0
    then (if ltb (2 ^ 63 - 1) arg then malformed else ok (integer (pos arg), b))
    else if major == 1
    then (if ltb (2 ^ 63 - 1) arg then malformed else ok (integer (negsuc arg), b))
    else if major == 2
    then (if ltb (length b) arg then malformed else ok (bytes (take arg b), drop arg b))
    else if major == 3
    then (if ltb (length b) arg then malformed else ok (text (take arg b), drop arg b))
    else if major == 4
    then (items arg b >>= λ (a, rest). ok (array a, rest))
    else if major == 5
    then (fields arg b >>= λ (m, rest). ok (map m, rest))
    else if major == 7
    then read_simple ai arg b
    else malformed

unfoldable mutual
  pub decode_item : ℕ → Reader Value
  decode_item zero b = stuck
  decode_item (suc f) [] = malformed
  decode_item (suc f) (ib ∷ b) =
      let ai = bit_and ib 0x1f in
      read_arg ai b >>= λ (arg, rest).
      decode_major (λ n r. decode_items f n r) (λ n r. decode_fields f n r) (ib / 2 ^ 5) ai arg rest

  pub decode_items : ℕ → ℕ → Reader Items
  decode_items zero n b = stuck
  decode_items (suc f) zero b = ok (no_items, b)
  decode_items (suc f) (suc n) b = decode_item f b >>= λ (v, rest).
      decode_items f n rest >>= λ (vs, rest'). ok (item v vs, rest')

  pub decode_fields : ℕ → ℕ → Reader Fields
  decode_fields zero n b = stuck
  decode_fields (suc f) zero b = ok (no_fields, b)
  decode_fields (suc f) (suc n) b = decode_item f b >>= λ (k, rest).
      decode_item f rest >>= λ (v, rest').
      decode_fields f n rest' >>= λ (fs, rest''). ok (field k v fs, rest'')

-- Each item takes a byte and each loop a unit of fuel more, so `2 * length b + 1` is enough.
abbrev pub item_of : Outcome (Value × List ℕ) → Option Value
item_of (ok (v, rest)) = some v
item_of malformed = none
item_of stuck = none

unfoldable pub decode : List ℕ → Option Value
decode b = item_of (decode_item (2 * length b + 1) b)
