-- ===== src/Cbor.antt =====
-- proto/include/loom/proto/cbor.hpp, proto/src/cbor.cpp: the CBOR value model.
-- A double is its 64-bit pattern, an int64_t a ℤ, a byte a number below 256. The vectors inside an
-- array and a map are the types `Items` and `Fields`.
pub mod Float
pub mod Encode
pub mod Decode
pub mod Head
pub mod Canon
pub mod Reads
pub mod RoundTrip
pub mod Ends
pub mod Total
pub mod Reorder
use loom_client.Common.{ℕ, suc, ◌<◌, ◌^◌, ℤ, IsI64, Bool, List, [], ◌∷◌, length}

mutual
  pub data Value : Type 0 where
    null : Value
    boolean : Bool → Value
    integer : ℤ → Value
    bytes : List ℕ → Value
    text : List ℕ → Value
    array : Items → Value
    map : Fields → Value
    floating : ℕ → Value

  pub data Items : Type 0 where
    no_items : Items
    item : Value → Items → Items

  pub data Fields : Type 0 where
    no_fields : Fields
    field : Value → Value → Fields → Fields

abbrev pub items_size : Items → ℕ
items_size no_items = 0
items_size (item v vs) = suc (items_size vs)

abbrev pub fields_size : Fields → ℕ
fields_size no_fields = 0
fields_size (field k v fs) = suc (fields_size fs)

-- The enum `Value::Type`, and `type()`.
pub data Kind : Type 0 where
  null boolean integer bytes text array map floating : Kind

abbrev pub type : Value → Kind
type null = Kind.null
type (boolean b) = Kind.boolean
type (integer i) = Kind.integer
type (bytes b) = Kind.bytes
type (text s) = Kind.text
type (array a) = Kind.array
type (map m) = Kind.map
type (floating d) = Kind.floating

-- What the C++ types already say of a value: an integer is an int64_t, a size fits 64 bits, and a
-- double has 64 bits.
abbrev mutual
  pub IsRepresentable : Value → Type 0
  IsRepresentable null = Unit {0}
  IsRepresentable (boolean b) = Unit {0}
  IsRepresentable (integer i) = IsI64 i
  IsRepresentable (bytes b) = length b < 2 ^ 64
  IsRepresentable (text s) = length s < 2 ^ 64
  IsRepresentable (array a) = (items_size a < 2 ^ 64) × AreItems a
  IsRepresentable (map m) = (fields_size m < 2 ^ 64) × AreFields m
  IsRepresentable (floating d) = d < 2 ^ 64

  pub AreItems : Items → Type 0
  AreItems no_items = Unit {0}
  AreItems (item v vs) = IsRepresentable v × AreItems vs

  pub AreFields : Fields → Type 0
  AreFields no_fields = Unit {0}
  AreFields (field k v fs) = IsRepresentable k × IsRepresentable v × AreFields fs
