-- ===== src/Amf/Encode.antt =====
-- core/src/amf.c: `amf_pack`, `amf_get_pack_size` and what they call. A packing routine is the
-- bytes that it writes at `dest`; what the C function returns is their number.
pub mod Size
use rushkit.Base.{ℕ, zero, suc, ◌+◌, ◌%◌, ◌^◌, Bool, List, [], ◌∷◌, ◌++◌, Bytes, length, ◌==◌}
use rushkit.Base.Outcome.{Outcome, ok, assert, ◌>>=◌, ◌>>◌}
use rushkit.Word.{load_data, in_memory, to_long}
use rushkit.Amf.{
  Value, Items, Table, number, boolean, string, hash, plain, link, assoc_array, array, no_items,
  item, no_elems, elem, amf_number, amf_boolean, amf_string, amf_hash, amf_nil, amf_link,
  amf_assoc_array, amf_end, amf_array, items_size, table_size,
}

-- `small` is the machine's byte order, which `system_is_small_endian` holds.
module _ (small : Bool) where
  unfoldable pub pack_double : ℕ → Bytes
  pack_double src = load_data small (in_memory small 8 src)

  unfoldable pub pack_long : ℕ → Bytes
  pack_long src = load_data small (in_memory small 4 src)

  unfoldable pub pack_short : ℕ → Bytes
  pack_short src = load_data small (in_memory small 2 src)

  unfoldable pub pack_byte : ℕ → Bytes
  pack_byte val = (val % 256) ∷ []

  -- The size, an int, is passed as a short.
  unfoldable pub pack_string : Bytes → Bytes
  pack_string str = pack_short (length str % 2 ^ 16) ++ str

  unfoldable pub pack_empty_string : Bytes
  unfolding pack_string
  pack_empty_string = pack_string []

  -- `amf_pack` of a value whose type is AMF_END writes the type byte alone.
  unfoldable pub pack_end : Bytes
  unfolding pack_byte
  pack_end = pack_byte amf_end

  -- The type byte, then the payload. The loops of `_pack_array`, and of `_pack_hash` and
  -- `_pack_assoc_array`, are `pack_items` and `pack_elems`.
  unfoldable mutual
    pub amf_pack : Value → Bytes
    amf_pack (number d) = pack_byte amf_number ++ pack_double d
    amf_pack (boolean b) = pack_byte amf_boolean ++ pack_byte b
    amf_pack (string s) = pack_byte amf_string ++ pack_string s
    amf_pack (hash t) = pack_byte amf_hash ++ (pack_elems t ++ (pack_empty_string ++ pack_end))
    amf_pack (plain c) = pack_byte c
    amf_pack (link n) = pack_byte amf_link ++ pack_short n
    amf_pack (assoc_array t) =
        pack_byte amf_assoc_array ++ (pack_long (table_size t % 2 ^ 32) ++ pack_elems t)
    amf_pack (array xs) =
        pack_byte amf_array ++ (pack_long (items_size xs % 2 ^ 32) ++ pack_items xs)

    pub pack_items : Items → Bytes
    pack_items no_items = []
    pack_items (item v xs) = amf_pack v ++ pack_items xs

    pub pack_elems : Table → Bytes
    pack_elems no_elems = []
    pack_elems (elem k v t) = pack_string k ++ (amf_pack v ++ pack_elems t)

  -- The loop `buffer += amf_pack(arguments + i, buffer)` over `count` values.
  unfoldable pub pack_values : List Value → Bytes
  pack_values [] = []
  pack_values (v ∷ vs) = amf_pack v ++ pack_values vs

-- The sizes are ints, and a sum of them wraps around.
unfoldable mutual
  pub amf_get_pack_size : Value → ℕ
  amf_get_pack_size (number d) = 8 + 1
  amf_get_pack_size (boolean b) = 1 + 1
  amf_get_pack_size (string s) = (2 + length s + 1) % 2 ^ 32
  amf_get_pack_size (hash t) = (get_elems_pack_size t + 3 + 1) % 2 ^ 32
  amf_get_pack_size (plain c) = 0 + 1
  amf_get_pack_size (link n) = 2 + 1
  amf_get_pack_size (assoc_array t) = (4 + get_elems_pack_size t + 1) % 2 ^ 32
  amf_get_pack_size (array xs) = (4 + get_items_pack_size xs + 1) % 2 ^ 32

  pub get_items_pack_size : Items → ℕ
  get_items_pack_size no_items = 0
  get_items_pack_size (item v xs) = (amf_get_pack_size v + get_items_pack_size xs) % 2 ^ 32

  pub get_elems_pack_size : Table → ℕ
  get_elems_pack_size no_elems = 0
  get_elems_pack_size (elem k v t) =
      (length k + 2 + amf_get_pack_size v + get_elems_pack_size t) % 2 ^ 32

-- The loop `sum_cap += amf_get_pack_size(arguments + i)`, on ints.
unfoldable pub sum_pack_size : List Value → ℕ
sum_pack_size [] = 0
sum_pack_size (v ∷ vs) = (amf_get_pack_size v + sum_pack_size vs) % 2 ^ 32

-- The buffer and, as its length, `*data_len`.
unfoldable pub amf_pack_arguments : Bool → List Value → Outcome Bytes
amf_pack_arguments small arguments = do
  let sum_cap = sum_pack_size arguments
  let buffer = pack_values small arguments
  assert (to_long sum_cap == length buffer)
  ok buffer

-- `req_id` is a double. The name is a C string, given without its final zero byte.
unfoldable pub amf_pack_call : Bool → Bytes → ℕ → List Value → Outcome Bytes
amf_pack_call small method_name req_id arguments = do
  let headers : List Value = string method_name ∷ number req_id ∷ plain amf_nil ∷ []
  let sum_cap = (sum_pack_size headers + sum_pack_size arguments) % 2 ^ 32
  let buffer = pack_values small headers ++ pack_values small arguments
  assert (to_long sum_cap == length buffer)
  ok buffer
