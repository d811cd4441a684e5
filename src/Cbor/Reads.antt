-- ===== src/Cbor/Reads.antt =====
-- proto/src/cbor.cpp: how the decoder reads each kind of item that the encoder writes.
use loom_client.Common.{
  ℕ, zero, suc, ◌*◌, ◌/◌, ◌%◌, ◌^◌, ◌<◌, ◌≡◌, refl, ◌∙◌, arith, pos, negsuc, Bool, true, false,
  List, [], ◌∷◌, ◌++◌, length, length-append, All, append_assoc, if◌then◌else◌, ltb, le→ltb,
  take-append, drop-append,
}
use loom_client.Cbor.{
  Value, Items, null, boolean, integer, bytes, text, array, map, floating, item, items_size,
}
use loom_client.Cbor.Float.{f16_to_f32, f32_to_f16, is_nan64, feq32, feq64, widen, narrow}
use loom_client.Cbor.Encode.{
  push_be, encode_float, put_head, sort_entries, concat_entries, encode_canonical, encode_items,
  encode_entries,
}
use loom_client.Cbor.Decode.{ok, read_arg, decode_major, decode_item, decode_items, decode_fields}
use loom_client.Cbor.Head.{read_be-push_be, decode_item-put_head, length-put_head_pos}
use loom_client.Cbor.Canon.{reread, Member, to_fields, entries}

pub f32_to_f16-lt : (x : ℕ) → f32_to_f16 x / 2 ^ 16 ≡ 0
unfolding f32_to_f16
f32_to_f16-lt x = ground arith

pub narrow-lt : (d : ℕ) → narrow d / 2 ^ 32 ≡ 0
unfolding narrow
narrow-lt d = omega arith

-- With fuel above twice its length, `printed` is read as `v` off the front of any input.
abbrev pub Reads : List ℕ → Value → Type 0
Reads printed v =
    (f : ℕ) (rest : List ℕ)
    → 2 * length printed < f
    → decode_item f (printed ++ rest) ≡ ok (v, rest)

-- A string that is there in full is not refused.
whole : (b rest : List ℕ) → ltb (length (b ++ rest)) (length b) ≡ false
whole b rest = le→ltb (length (b ++ rest)) (length b) (omega (arith, length-append b rest))

half_Reads : (h : ℕ) → h / 2 ^ 16 ≡ 0 → Reads (0xf9 ∷ push_be 2 h) (floating (widen (f16_to_f32 h)))
unfolding decode_item read_arg decode_major
half_Reads h fits zero rest e = absurd (omega arith)
half_Reads h fits (suc f) rest e =
    let small : h % 2 ^ 16 ≡ h = omega arith in
    rw (read_be-push_be 2 h rest (omega arith) fits) (rw small refl)

single_Reads : (x : ℕ) → x / 2 ^ 32 ≡ 0 → Reads (0xfa ∷ push_be 4 x) (floating (widen x))
unfolding decode_item read_arg decode_major
single_Reads x fits zero rest e = absurd (omega arith)
single_Reads x fits (suc f) rest e =
    let small : x % 2 ^ 32 ≡ x = omega arith in
    rw (read_be-push_be 4 x rest (omega arith) fits) (rw small refl)

double_Reads : (d : ℕ) → d < 2 ^ 64 → Reads (0xfb ∷ push_be 8 d) (floating d)
unfolding decode_item read_arg decode_major
double_Reads d h zero rest e = absurd (omega arith)
double_Reads d h (suc f) rest e = rw (read_be-push_be 8 d rest h (omega arith))

-- The three tests of `encode_float`, whatever they answer.
float_choice_Reads :
    (nan exact32 exact16 : Bool) (p q r s : List ℕ) {i j k l : ℕ}
    → Reads p (floating i)
    → Reads q (floating j)
    → Reads r (floating k)
    → Reads s (floating l)
    → Reads
        (if nan then p else if exact32 then (if exact16 then q else r) else s)
        (floating (if nan then i else if exact32 then (if exact16 then j else k) else l))
float_choice_Reads true _ _ _ _ _ _ hp hq hr hs = hp
float_choice_Reads false true true _ _ _ _ hp hq hr hs = hq
float_choice_Reads false true false _ _ _ _ hp hq hr hs = hr
float_choice_Reads false false _ _ _ _ _ hp hq hr hs = hs

pub encode_float-Reads : (d : ℕ) → d < 2 ^ 64 → Reads (encode_float d) (floating (reread d))
unfolding encode_float reread
encode_float-Reads d h =
    float_choice_Reads (is_nan64 d) (feq64 (widen (narrow d)) d)
      (feq32 (f16_to_f32 (f32_to_f16 (narrow d))) (narrow d)) _ _ _ _ (half_Reads 0x7e00 refl)
      (half_Reads (f32_to_f16 (narrow d)) (f32_to_f16-lt (narrow d)))
      (single_Reads (narrow d) (narrow-lt d)) (double_Reads d h)

-- A byte string: the head, then its bytes as they are.
pub bytes_Reads : (b : List ℕ) → length b < 2 ^ 64 → Reads (put_head 2 (length b) ++ b) (bytes b)
unfolding decode_major
bytes_Reads b h zero rest e = absurd (omega arith)
bytes_Reads b h (suc f) rest e = rw append_assoc (
    decode_item-put_head f 2 (length b) (b ++ rest) (omega arith) h
    ∙ rw (whole b rest, take-append b rest, drop-append b rest))

pub text_Reads : (b : List ℕ) → length b < 2 ^ 64 → Reads (put_head 3 (length b) ++ b) (text b)
unfolding decode_major
text_Reads b h zero rest e = absurd (omega arith)
text_Reads b h (suc f) rest e = rw append_assoc (
    decode_item-put_head f 3 (length b) (b ++ rest) (omega arith) h
    ∙ rw (whole b rest, take-append b rest, drop-append b rest))

-- The fuel that is left behind a head.
pub head_costs :
    (major n f : ℕ) (b : List ℕ)
    → 2 * length (put_head major n ++ b) < suc f
    → suc (2 * length b) < f
head_costs major n f b h =
    omega (arith, length-append (put_head major n) b, length-put_head_pos major n)

abbrev pub ReadsMember : Member → Type 0
ReadsMember m = Reads m.entry.0 m.key × Reads m.entry.1 m.val × (0 < length m.entry.0)

-- The sorted entries of a map.
pub concat_entries-Reads :
    (ms : List Member)
    → All ReadsMember ms
    → (f : ℕ) (rest : List ℕ) → suc (2 * length (concat_entries (entries ms))) < f
    → decode_fields f (length ms) (concat_entries (entries ms) ++ rest) ≡ ok (to_fields ms, rest)
unfolding decode_item concat_entries
concat_entries-Reads [] h zero rest e = absurd (omega arith)
concat_entries-Reads [] h (suc f) rest e = refl
concat_entries-Reads (m ∷ ms) h zero rest e = absurd (omega arith)
concat_entries-Reads (m ∷ ms) h (suc f) rest e =
    let kb = m.entry.0 in
    let vb = m.entry.1 in
    let more = concat_entries (entries ms) in
    let k_size = length-append kb (vb ++ more) in
    let v_size = length-append vb more in
    let nonempty = h.0.2 in
    simp (
      append_assoc,
      h.0.0 f (vb ++ (more ++ rest)) (omega arith),
      h.0.1 f (more ++ rest) (omega arith),
      concat_entries-Reads ms h.1 f rest (omega arith),
    )

-- The items of an array.
pub item_step :
    (v : Value) (n : ℕ) (vs : Items) (printed more : List ℕ)
    → 0 < length printed
    → Reads printed v
    → ((f : ℕ) (rest : List ℕ)
        → suc (2 * length more) < f
        → decode_items f n (more ++ rest) ≡ ok (vs, rest))
    → (f : ℕ) (rest : List ℕ) → suc (2 * length (printed ++ more)) < f
    → decode_items f (suc n) ((printed ++ more) ++ rest) ≡ ok (item v vs, rest)
unfolding decode_item
item_step v n vs printed more pos_size hv hvs zero rest e = absurd (omega arith)
item_step v n vs printed more pos_size hv hvs (suc f) rest e =
    let size = length-append printed more in
    simp (append_assoc, hv f (more ++ rest) (omega arith), hvs f rest (omega arith))

pub length-encode_canonical_pos : (v : Value) → 0 < length (encode_canonical v)
unfolding encode_canonical
length-encode_canonical_pos null = omega arith
length-encode_canonical_pos (boolean b) = omega arith
length-encode_canonical_pos (integer (pos i)) = length-put_head_pos 0 i
length-encode_canonical_pos (integer (negsuc i)) = length-put_head_pos 1 i
length-encode_canonical_pos (floating d) = unfold encode_float in ground arith
length-encode_canonical_pos (bytes b) =
    omega (arith, length-append (put_head 2 (length b)) b, length-put_head_pos 2 (length b))
length-encode_canonical_pos (text b) =
    omega (arith, length-append (put_head 3 (length b)) b, length-put_head_pos 3 (length b))
length-encode_canonical_pos (array a) = omega (
  arith,
  length-append (put_head 4 (items_size a)) (encode_items a),
  length-put_head_pos 4 (items_size a),
)
length-encode_canonical_pos (map m) = omega (
  arith,
  length-append (put_head 5 (length (encode_entries m)))
      (concat_entries (sort_entries (encode_entries m))),
  length-put_head_pos 5 (length (encode_entries m)),
)
