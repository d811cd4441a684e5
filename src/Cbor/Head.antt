-- ===== src/Cbor/Head.antt =====
-- The head of an item: what `push_be` and `put_head` write, `read_be` and `read_arg` read back.
use native.Mathlib.Nat.{div-div-eq-div-mul, div-le_self}
use native.Mathlib.Numerals.{towards_suc}
use loom_client.Common.{
  ℕ, zero, suc, ◌+◌, ◌*◌, ◌/◌, ◌%◌, ◌^◌, ◌<◌, bit_and, bit_or, ◌≡◌, refl, sym, ap, ◌∙◌, arith, List,
  ◌∷◌, ◌++◌, length, length-append, ltb, leb, if◌then◌else◌, le→ltb, ltb→lt, leb→le, Bool-cases,
  inl, inr, byte_or, byte_split, mask_five,
}
use loom_client.Cbor.Encode.{push_be, put_head}
use loom_client.Cbor.Decode.{
  ok, ◌>>=◌, read_loop, read_be, read_arg, decode_major, decode_item, decode_items, decode_fields,
}

pub length-push_be : (n v : ℕ) → length (push_be n v) ≡ n
unfolding push_be
length-push_be zero v = refl
length-push_be (suc n) v = ap suc (length-push_be n v)

power_eight : (k : ℕ) → 2 ^ (k + 8) ≡ 2 ^ k * 256
power_eight k = simp towards_suc (omega arith)

power_step : (n : ℕ) → 2 ^ (suc n * 8) ≡ 2 ^ (n * 8) * 256
power_step n = let e : suc n * 8 ≡ n * 8 + 8 = omega arith in rw e (power_eight (n * 8))

shift_step : (n v : ℕ) → v / 2 ^ (suc n * 8) ≡ v / 2 ^ (n * 8) / 256
shift_step n v = rw (power_step n) (sym (div-div-eq-div-mul v (2 ^ (n * 8)) 256))

read_loop-push_be :
    (n v : ℕ) (rest : List ℕ)
    → v < 2 ^ 64
    → read_loop n (v / 2 ^ (n * 8)) (push_be n v ++ rest) ≡ ok (v, rest)
unfolding read_loop push_be
read_loop-push_be zero v rest h = ground arith
read_loop-push_be (suc n) v rest h = ground (
  arith,
  shift_step n v,
  div-le_self v (2 ^ (n * 8)),
  byte_or (v / 2 ^ (suc n * 8)) (v / 2 ^ (n * 8) % 256),
  read_loop-push_be n v rest,
)

-- Where `arg` fits `n` bytes, `read_be n` reads it back and leaves what follows.
pub read_be-push_be :
    (n v : ℕ) (rest : List ℕ)
    → v < 2 ^ 64
    → v / 2 ^ (n * 8) ≡ 0
    → read_be n (push_be n v ++ rest) ≡ ok (v, rest)
unfolding read_be
read_be-push_be n v rest h fits =
    rw
      (le→ltb (length (push_be n v ++ rest)) n
        (omega (arith, length-append (push_be n v) rest, length-push_be n v)))
      (rw fits at (read_loop-push_be n v rest h))

abbrev head_of : ℕ → ℕ → ℕ
head_of major ai = major * 32 + ai

head_fields :
    (major ai : ℕ)
    → major < 8
    → ai < 32
    → (bit_or (major * 2 ^ 5 % 256) ai % 256 ≡ head_of major ai)
      × (head_of major ai / 2 ^ 5 ≡ major)
      × (bit_and (head_of major ai) 0x1f ≡ ai)
head_fields major ai hm ha = ground (arith, byte_split major ai, mask_five (head_of major ai))

-- The additional information that `put_head` writes for `arg`.
abbrev pub info : ℕ → ℕ
info arg =
    if ltb arg 24
    then arg
    else if leb arg 0xff
    then 24
    else if leb arg 0xffff
    then 25
    else if leb arg 0xffffffff
    then 26
    else 27

after_head :
    (f major ai : ℕ) (b : List ℕ)
    → major < 8
    → ai < 32
    → decode_item (suc f) (bit_or (major * 2 ^ 5 % 256) ai % 256 ∷ b) ≡ (
        read_arg ai b >>= λ (arg, rest).
        decode_major (λ n r. decode_items f n r) (λ n r. decode_fields f n r) major ai arg rest)
unfolding decode_item
after_head f major ai b hm ha = let (e, p, q) = head_fields major ai hm ha in rw (e, p, q)

-- Reading the head that `put_head` wrote goes on to the `switch` with its major type and argument.
pub decode_item-put_head :
    (f major arg : ℕ) (rest : List ℕ)
    → major < 8
    → arg < 2 ^ 64
    → decode_item (suc f) (put_head major arg ++ rest)
      ≡ decode_major
          (λ n r. decode_items f n r)
          (λ n r. decode_fields f n r)
          major
          (info arg)
          arg
          rest
unfolding put_head read_arg
decode_item-put_head f major arg rest hm ha = elim (Bool-cases (ltb arg 24)) [
  | inl t ↦ rw t (rw t at (after_head f major arg rest hm (omega (arith, ltb→lt arg 24 t))))
  | inr t ↦ elim (Bool-cases (leb arg 0xff)) [
    | inl u ↦ rw (t, u) (follow 24 1 (omega arith) (λ b. refl) (omega (arith, leb→le _ _ u)))
    | inr u ↦ elim (Bool-cases (leb arg 0xffff)) [
      | inl v ↦ rw (t, u, v) (follow 25 2 (omega arith) (λ b. refl) (omega (arith, leb→le _ _ v)))
      | inr v ↦ elim (Bool-cases (leb arg 0xffffffff)) [
        | inl w ↦
            rw (t, u, v, w) (follow 26 4 (omega arith) (λ b. refl) (omega (arith, leb→le _ _ w)))
        | inr w ↦ rw (t, u, v, w) (follow 27 8 (omega arith) (λ b. refl) (omega arith))
      ]
    ]
  ]
]
  where
    follow :
        (ai n : ℕ)
        → ai < 32
        → ((b : List ℕ) → read_arg ai b ≡ read_be n b)
        → arg / 2 ^ (n * 8) ≡ 0
        → decode_item (suc f) ((bit_or (major * 2 ^ 5 % 256) ai % 256 ∷ push_be n arg) ++ rest)
          ≡ decode_major (λ n r. decode_items f n r) (λ n r. decode_fields f n r) major ai arg rest
    follow ai n hai same fits =
        after_head f major ai (push_be n arg ++ rest) hm hai
        ∙ rw (same (push_be n arg ++ rest), read_be-push_be n arg rest ha fits)

pub length-put_head_pos : (major arg : ℕ) → 0 < length (put_head major arg)
unfolding put_head
length-put_head_pos major arg = ground arith
