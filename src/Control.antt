-- ===== src/Control.antt =====
-- proto/include/loom/proto/control.hpp, proto/src/control.cpp: control-stream framing, the message
-- registry and the envelope `[msg_type, body]`.
pub mod RoundTrip
pub mod Accepts
use loom_client.Common.{
  ℕ, zero, suc, ◌||◌, ◌+◌, ◌-◌, ◌*◌, ◌/◌, ◌%◌, ◌^◌, be_u32, ℤ, pos, to_i64, eqb_ℤ, Bool, true,
  false, Option, none, some, List, [], ◌∷◌, ◌++◌, length, take, drop, get_or, ltb, ◌==◌,
  if◌then◌else◌,
}
use loom_client.Result.{Result, ok, err}
use loom_client.Cbor.{Value, Items, Fields, integer, array, map, no_items, item, no_fields, field}
use loom_client.Cbor.Encode.{encode_canonical}
use loom_client.Cbor.Decode.{decode}

abbrev pub max_frame_body : ℕ
max_frame_body = 65536

abbrev pub hello : ℕ
hello = 0x01

abbrev pub welcome : ℕ
welcome = 0x02

abbrev pub config : ℕ
config = 0x03

abbrev pub config_ack : ℕ
config_ack = 0x04

abbrev pub start : ℕ
start = 0x05

abbrev pub input : ℕ
input = 0x10

abbrev pub idr_request : ℕ
idr_request = 0x20

abbrev pub stats : ℕ
stats = 0x21

abbrev pub viewport : ℕ
viewport = 0x22

abbrev pub clock_ping : ℕ
clock_ping = 0x30

abbrev pub clock_pong : ℕ
clock_pong = 0x31

abbrev pub error_msg : ℕ
error_msg = 0x40

abbrev pub bye : ℕ
bye = 0x41

abbrev pub pair_a : ℕ
pair_a = 0x50

abbrev pub pair_b : ℕ
pair_b = 0x51

abbrev pub pair_c : ℕ
pair_c = 0x52

abbrev pub pair_result : ℕ
pair_result = 0x53

-- The keys 0 to n - 1, in order: `k0`, `k01`, `k012` and so on.
unfoldable pub keys_upto : ℕ → List ℤ
keys_upto zero = []
keys_upto (suc n) = keys_upto n ++ pos n ∷ []

unfoldable pub known_keys : ℕ → Option (List ℤ)
known_keys t =
    if t == hello
    then some (keys_upto 6)
    else if t == config
    then some (keys_upto 7)
    else if t == welcome
    then some (keys_upto 4)
    else if t == stats
    then some (keys_upto 8)
    else if t == clock_pong
    then some (keys_upto 3)
    else if t == input || t == idr_request || t == error_msg || t == pair_b || t == pair_result
    then some (keys_upto 2)
    else if t == config_ack
        || t == viewport
        || t == clock_ping
        || t == bye
        || t == pair_a
        || t == pair_c
    then some (keys_upto 1)
    else if t == start
    then some []
    else none

-- The two kinds of `Decoded`.
pub data Kind : Type 0 where
  message ignored : Kind

pub record Decoded : Type 0 where
  pub kind : Kind
  pub msg_type : ℕ
  pub body : Fields

pub data ControlError : Type 0 where
  protocol_violation : ControlError

abbrev pub envelope : ℕ → Fields → Value
envelope msg_type body = array (item (integer (to_i64 msg_type)) (item (map body) no_items))

abbrev u8 : ℕ → ℕ
u8 x = x % 256

unfoldable pub encode_frame : ℕ → Fields → List ℕ
encode_frame msg_type body =
    let payload = encode_canonical (envelope msg_type body) in
    let len = length payload % 2 ^ 32 in
    u8 (len / 2 ^ 24) ∷ u8 (len / 2 ^ 16) ∷ u8 (len / 2 ^ 8) ∷ u8 len ∷ payload

unfoldable pub contains : List ℤ → ℤ → Bool
contains [] k = false
contains (x ∷ keys) k = if eqb_ℤ x k then true else contains keys k

-- `k.type() == Int && contains(*allowed, k.as_int())`
abbrev pub is_allowed : List ℤ → Value → Bool
is_allowed allowed (integer k) = contains allowed k
is_allowed allowed _ = false

unfoldable pub filter_known : List ℤ → Fields → Fields
filter_known allowed no_fields = no_fields
filter_known allowed (field k v fs) =
    let rest = filter_known allowed fs in if is_allowed allowed k then field k v rest else rest

abbrev pub registered : ℕ → Fields → Option (List ℤ) → Decoded
registered t m none = record { kind = ignored; msg_type = 0; body = no_fields }
registered t m (some allowed) = record {
  kind = message;
  msg_type = t;
  body = filter_known allowed m;
}

-- An array of two: an integer that is not negative, and a map.
unfoldable pub open_envelope : Option Value → Result Decoded ControlError
unfolding known_keys
open_envelope none = err protocol_violation
open_envelope (some (array (item (integer (pos t)) (item (map m) no_items)))) =
    ok (registered t m (known_keys t))
open_envelope (some _) = err protocol_violation

-- The length field in front of a frame.
abbrev pub frame_len : List ℕ → ℕ
frame_len b = be_u32 (get_or b 0 0) (get_or b 1 0) (get_or b 2 0) (get_or b 3 0)

unfoldable pub decode_frame : List ℕ → Result Decoded ControlError
unfolding open_envelope
decode_frame bytes =
    let len = frame_len bytes in
    if ltb (length bytes) 4
    then err protocol_violation
    else if ltb max_frame_body len
    then err protocol_violation
    else if ltb (length bytes - 4) len
    then err protocol_violation
    else open_envelope (decode (take len (drop 4 bytes)))
