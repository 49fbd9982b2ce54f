-- ===== src/Amf.antt =====
-- include/rushkit.h: the values of AMF0, the types AV, AK_STRING, AK_ARRAY and AK_TABLE.
pub mod Valid
pub mod Encode
pub mod Decode
pub mod Pickler
pub mod Print
use rushkit.Base.{ℕ, zero, suc, ◌+◌, Bool, List, [], ◌∷◌, Bytes, ◌==◌, ◌||◌}

abbrev pub amf_number : ℕ
amf_number = 0

abbrev pub amf_boolean : ℕ
amf_boolean = 1

abbrev pub amf_string : ℕ
amf_string = 2

abbrev pub amf_hash : ℕ
amf_hash = 3

abbrev pub amf_nil : ℕ
amf_nil = 5

abbrev pub amf_link : ℕ
amf_link = 7

abbrev pub amf_assoc_array : ℕ
amf_assoc_array = 8

abbrev pub amf_end : ℕ
amf_end = 9

abbrev pub amf_array : ℕ
amf_array = 10

-- AV: the type code with its member of the union. A double is its 64-bit pattern and a short its
-- 16-bit pattern; `plain` is a type code that has no payload: AMF_NIL, AMF_END, AMF_UNDEF,
-- AMF_UNDEF_OBJ and whatever else the `default` of the switches takes.
mutual
  pub data Value : Type 0 where
    number : ℕ → Value
    boolean : ℕ → Value
    string : Bytes → Value
    hash : Table → Value
    plain : ℕ → Value
    link : ℕ → Value
    assoc_array : Table → Value
    array : Items → Value

  -- AK_ARRAY
  pub data Items : Type 0 where
    no_items : Items
    item : Value → Items → Items

  -- AK_TABLE: its AK_TABLE_ELEMs, each a key and a value.
  pub data Table : Type 0 where
    no_elems : Table
    elem : Bytes → Value → Table → Table

-- The field `type` of AV.
unfoldable pub type_of : Value → ℕ
type_of (number d) = amf_number
type_of (boolean b) = amf_boolean
type_of (string s) = amf_string
type_of (hash t) = amf_hash
type_of (plain c) = c
type_of (link n) = amf_link
type_of (assoc_array t) = amf_assoc_array
type_of (array xs) = amf_array

-- The type codes that have a payload.
abbrev pub has_payload : ℕ → Bool
has_payload c =
    c == amf_number
    || c == amf_boolean
    || c == amf_string
    || c == amf_hash
    || c == amf_link
    || c == amf_assoc_array
    || c == amf_array

-- The field `size` of AK_ARRAY and of AK_TABLE.
unfoldable pub items_size : Items → ℕ
items_size no_items = 0
items_size (item v xs) = suc (items_size xs)

unfoldable pub table_size : Table → ℕ
table_size no_elems = 0
table_size (elem k v t) = suc (table_size t)
