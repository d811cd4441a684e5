-- ===== src/Session/Config.antt =====
-- core/src/session.cpp: reading a message body, and the parsed CONFIG.
use loom_client.Common.{
  ℕ, zero, suc, ◌%◌, ◌^◌, ℤ, pos, to_u64, eqb_ℤ, Bool, false, Option, none, some, List, [], ◌∷◌,
  if◌then◌else◌,
}
use loom_client.Cbor.{
  Value, Items, Fields, integer, text, array, map, no_items, item, no_fields, field,
}

pub record StreamConfig : Type 0 where
  pub stream_id : ℕ
  pub width : ℕ
  pub height : ℕ
  pub refresh : ℕ
  pub bitrate_kbps : ℕ

pub record SessionConfig : Type 0 where
  pub generation : ℕ
  pub codec : ℕ
  pub width : ℕ
  pub height : ℕ
  pub refresh : ℕ
  pub audio : ℕ
  pub bitrate_kbps : ℕ
  pub extra_streams : List StreamConfig

abbrev pub is_key : ℤ → Value → Bool
is_key key (integer k) = eqb_ℤ k key
is_key key _ = false

abbrev pub or_else {ℓ} : {A : Type ℓ} → Option A → Option A → Option A
or_else (some a) o = some a
or_else none o = o

-- The loop of the four `find_…`: the first entry at `key` whose value `pick` accepts.
unfoldable pub find_by {ℓ} : {A : Type ℓ} → (Value → Option A) → Fields → ℤ → Option A
find_by pick no_fields key = none
find_by pick (field k v m) key =
    let rest = find_by pick m key in if is_key key k then or_else (pick v) rest else rest

abbrev pub int_of : Value → Option ℤ
int_of (integer i) = some i
int_of _ = none

abbrev pub text_of : Value → Option (List ℕ)
text_of (text s) = some s
text_of _ = none

abbrev pub array_of : Value → Option Items
array_of (array a) = some a
array_of _ = none

-- `idx < a.size() && a[idx].type() == Int`
unfoldable pub elem_int : ℕ → Items → Option ℤ
elem_int idx no_items = none
elem_int zero (item v vs) = int_of v
elem_int (suc idx) (item v vs) = elem_int idx vs

abbrev pub pair_elem_of : ℕ → Value → Option ℤ
pair_elem_of idx (array a) = elem_int idx a
pair_elem_of idx _ = none

unfoldable pub find_int : Fields → ℤ → Option ℤ
unfolding find_by
find_int m key = find_by int_of m key

unfoldable pub find_text : Fields → ℤ → Option (List ℕ)
unfolding find_by
find_text m key = find_by text_of m key

unfoldable pub find_pair_elem : Fields → ℤ → ℕ → Option ℤ
unfolding find_by elem_int
find_pair_elem m key idx = find_by (pair_elem_of idx) m key

unfoldable pub find_array : Fields → ℤ → Option Items
unfolding find_by
find_array m key = find_by array_of m key

abbrev pub value_or : Option ℤ → ℤ → ℤ
value_or none d = d
value_or (some i) d = i

-- `static_cast<std::uint64_t>(o.value_or(0))`
abbrev pub unsigned : Option ℤ → ℕ
unsigned o = to_u64 (value_or o (pos 0))

unfoldable pub parse_stream : Fields → StreamConfig
unfolding find_int find_pair_elem
parse_stream desc = record {
  stream_id = unsigned (find_int desc (pos 0)) % 2 ^ 16;
  width = unsigned (find_pair_elem desc (pos 1) 0);
  height = unsigned (find_pair_elem desc (pos 1) 1);
  refresh = unsigned (find_int desc (pos 2));
  bitrate_kbps = unsigned (find_int desc (pos 3));
}

-- The loop over key 6: what is no map is passed over.
unfoldable pub parse_streams : Items → List StreamConfig
unfolding parse_stream
parse_streams no_items = []
parse_streams (item (map desc) vs) = parse_stream desc ∷ parse_streams vs
parse_streams (item _ vs) = parse_streams vs

abbrev streams_of : Option Items → List StreamConfig
unfolding parse_streams
streams_of none = []
streams_of (some a) = parse_streams a

unfoldable pub parse_config : Fields → SessionConfig
unfolding find_int find_pair_elem find_array parse_streams streams_of
parse_config body = record {
  generation = unsigned (find_int body (pos 0));
  codec = unsigned (find_int body (pos 1));
  width = unsigned (find_pair_elem body (pos 2) 0);
  height = unsigned (find_pair_elem body (pos 2) 1);
  refresh = unsigned (find_int body (pos 3));
  audio = unsigned (find_int body (pos 4));
  bitrate_kbps = unsigned (find_int body (pos 5));
  extra_streams = streams_of (find_array body (pos 6));
}
